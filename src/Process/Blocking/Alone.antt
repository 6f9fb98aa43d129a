-- ===== src/Process/Blocking/Alone.antt =====
-- An order of turns in which all threads come to their end: one thread after the other.
use performant_transactional.Base.{
  ℕ, zero, suc, ◌+◌, ◌<◌, ◌≤◌, List, [], ◌∷◌, ◌≡◌, ◌≢◌, refl, ◌∙◌, inl, inr, ◌==◌, ==_iff,
  Bool-cases, arith, false,
}
use performant_transactional.Process.{Prog, ret, System, update_own, update_else}
use performant_transactional.Process.Blocking.{Blocking, attempt, turn, interleave}

-- Thread `i` makes the turns `n` times, before the others.
abbrev pub turns_of : ℕ → ℕ → List ℕ → List ℕ
turns_of i zero is = is
turns_of i (suc n) is = i ∷ turns_of i n is

module _ {Act : Type 0} {Res : Act → Type 0} {S A : Type 0} (exec : ℕ → Blocking Act Res S) where
  -- What is left of the thread, and the state, after `n` turns.
  unfoldable pub attempts : ℕ → ℕ → Prog Act Res A → S → Prog Act Res A × S
  attempts i zero p s = (p, s)
  attempts i (suc n) p s = attempts i n (attempt exec i p s).0 (attempt exec i p s).1

  -- From states with `P` the thread comes to its end alone, and leaves `P`.
  unfoldable pub Finishes : (S → Type 0) → ℕ → Prog Act Res A → Type 0
  Finishes P i p =
      (n : ℕ) × ((s : S)
        → P s
        → ((a : A) × ((attempts i n p s).0 ≡ ret a)) × P (attempts i n p s).1)

  alone :
      (i n : ℕ) (y : System Act Res S A)
      → (z : System Act Res S A) × ((is : List ℕ)
          → interleave exec (turns_of i n is) y ≡ interleave exec is z)
        × (z.shared ≡ (attempts i n (y.threads i) y.shared).1)
        × (z.threads i ≡ (attempts i n (y.threads i) y.shared).0)
        × ((j : ℕ) → i ≢ j → z.threads j ≡ y.threads j)
  unfolding interleave attempts turn
  alone i zero y = (y, λ is. refl, refl, refl, λ j d. refl)
  alone i (suc n) y =
      let (z, e, s, t, o) = alone i n (turn exec i y) in
      let own = update_own y.threads i (attempt exec i (y.threads i) y.shared).0 in
      (
        z,
        e,
        (rw own at s),
        (rw own at t),
        λ j d. o j d ∙ update_else y.threads i j (attempt exec i (y.threads i) y.shared).0 d,
      )

  -- The threads below `n` come to their end, those from `n` on stay as they are.
  pub all-Finishes :
      (P : S → Type 0) (n : ℕ) (y : System Act Res S A)
      → P y.shared
      → ((i : ℕ) → i < n → Finishes P i (y.threads i))
      → (is : List ℕ) × (((i : ℕ) → i < n → (a : A) × ((interleave exec is y).threads i ≡ ret a))
          × ((j : ℕ) → n ≤ j → (interleave exec is y).threads j ≡ y.threads j))
  unfolding interleave Finishes
  all-Finishes P zero y p f = ([], ((λ i h. absurd (omega arith)), λ j h. refl))
  all-Finishes P (suc n) y p f =
      let (m, g) = f n (omega arith) in
      let (z, e, s, t, o) = alone n m y in
      let (a, q) = g y.shared p in
      let (is, (ends, stays)) =
        all-Finishes P n z (rw s q)
          (λ i h. rw (o i (λ d. absurd (omega arith))) (f i (omega arith))) in
      (
        turns_of n m is,
        (
          (λ i h. rw (e is) (elim (Bool-cases (n == i)) [
            | inl c ↦
                let same = (==_iff n i).0 c in rw (← same) (a.0, stays n (omega arith) ∙ t ∙ a.1)
            | inr c ↦ ends i (below i n c h)
          ])),
          λ j h. rw (e is) (stays j (omega arith) ∙ o j (λ d. absurd (omega arith))),
        ),
      )
    where
      below : (i n : ℕ) → (n == i) ≡ false → i < suc n → i < n
      below i n c h = ground arith

  pub attempts-ret : (i n : ℕ) (a : A) (s : S) → attempts i n (ret a) s ≡ (ret a, s)
  unfolding attempts
  attempts-ret i zero a s = refl
  attempts-ret i (suc n) a s = attempts-ret i n a s

  -- More turns change nothing.
  pub attempts-add :
      (i n m : ℕ) (p : Prog Act Res A) (s : S) (a : A)
      → (attempts i n p s).0 ≡ ret a
      → attempts i (n + m) p s ≡ attempts i n p s
  unfolding attempts
  attempts-add i zero m p s a e = rw (e, nothing m) (attempts-ret i m a s)
    where
      nothing : (m : ℕ) → 0 + m ≡ m
      nothing m = omega arith
  attempts-add i (suc n) m p s a e =
      rw (more n m) (attempts-add i n m (attempt exec i p s).0 (attempt exec i p s).1 a e)
    where
      more : (n m : ℕ) → suc n + m ≡ suc (n + m)
      more n m = omega arith
