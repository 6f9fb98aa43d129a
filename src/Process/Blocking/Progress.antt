-- ===== src/Process/Blocking/Progress.antt =====
-- Two threads that may have to wait, but never both of them, come to their end in alternating turns.
use performant_transactional.Base.{
  ℕ, zero, suc, ◌+◌, ◌-◌, ◌<◌, ◌≤◌, Option, none, some, List, [], ◌∷◌, ◌≡◌, ◌⊎◌, refl, inl, inr,
  ◌==◌, ==_iff, Bool-cases, arith, length,
}
use performant_transactional.Process.{Prog, ret, act, ◌>>=◌, System}
use performant_transactional.Process.Rely.{Contract}
use performant_transactional.Process.Blocking.{
  Blocking, attempt, turn, interleave, IsSound, turn-IsSound,
}

-- The threads 0 and 1 in turn.
unfoldable pub alternate : ℕ → List ℕ
alternate zero = []
alternate (suc n) = 0 ∷ 1 ∷ alternate n

-- The thread returns after at most `n` actions.
module _ {Act : Type 0} {Res : Act → Type 0} {A : Type 0} where
  unfoldable pub IsWithin : ℕ → Prog Act Res A → Type 0
  IsWithin n (ret a) = Unit {0}
  IsWithin zero (act a k) = ⊥
  IsWithin (suc n) (act a k) = (r : Res a) → IsWithin n (k r)

  pub IsWithin-le : (n m : ℕ) (p : Prog Act Res A) → n ≤ m → IsWithin n p → IsWithin m p
  unfolding IsWithin
  IsWithin-le n m (ret a) l h = tt
  IsWithin-le zero m (act a k) l h = absurd h
  IsWithin-le (suc n) zero (act a k) l h = absurd (omega arith)
  IsWithin-le (suc n) (suc m) (act a k) l h = λ r. IsWithin-le n m (k r) (omega arith) (h r)

  IsWithin-zero : (p : Prog Act Res A) → IsWithin 0 p → (r : A) × (p ≡ ret r)
  unfolding IsWithin
  IsWithin-zero (ret a) h = (a, refl)
  IsWithin-zero (act a k) h = absurd h

  returned-IsWithin : (p : Prog Act Res A) (r : A) → p ≡ ret r → IsWithin 0 p
  unfolding IsWithin
  returned-IsWithin p r e = rw e tt

module _ {Act : Type 0} {Res : Act → Type 0} where
  pub bind-IsWithin :
      {A B : Type 0} (m n : ℕ) (p : Prog Act Res A) (f : A → Prog Act Res B)
      → IsWithin m p
      → ((a : A) → IsWithin n (f a))
      → IsWithin (m + n) (p >>= f)
  unfolding IsWithin
  bind-IsWithin m n (ret a) f h g = IsWithin-le n (m + n) (f a) (omega arith) (g a)
  bind-IsWithin zero n (act a k) f h g = absurd h
  bind-IsWithin (suc m) n (act a k) f h g = rw (more m n) (λ r. bind-IsWithin m n (k r) f (h r) g)
    where
      more : (m n : ℕ) → suc m + n ≡ suc (m + n)
      more m n = omega arith

module _ {Act : Type 0} {Res : Act → Type 0} {S A : Type 0} (exec : ℕ → Blocking Act Res S) where
  abbrev pub HasReturned : ℕ → System Act Res S A → Type 0
  HasReturned i y = (r : A) × (y.threads i ≡ ret r)

  abbrev pub IsWaiting : ℕ → System Act Res S A → Type 0
  IsWaiting i y =
      (a : Act) × (k : Res a → Prog Act Res A) × (y.threads i ≡ act a k)
      × (exec i a y.shared ≡ none)

  -- What the attempt of an action comes to.
  abbrev Tried : ℕ → ℕ → Prog Act Res A → S → Type 0
  Tried i n p s =
      ((r : A) × (p ≡ ret r))
      ⊎ ((0 < n) × IsWithin (n - 1) (attempt exec i p s).0)
      ⊎ ((a : Act) × (k : Res a → Prog Act Res A) × (p ≡ act a k) × (exec i a s ≡ none))

  attempt-Tried : (i n : ℕ) (p : Prog Act Res A) (s : S) → IsWithin n p → Tried i n p s
  unfolding IsWithin
  attempt-Tried i n (ret a) s h = inl (a, refl)
  attempt-Tried i zero (act a k) s h = absurd h
  attempt-Tried i (suc n) (act a k) s h = go (exec i a s) refl
    where
      pred : (n : ℕ) → suc n - 1 ≡ n
      pred n = omega arith

      go : (o : Option (Res a × S)) → exec i a s ≡ o → Tried i (suc n) (act a k) s
      go none e = inr (inr (a, k, refl, e))
      go (some (r, t)) e = inr (inl (omega arith, rw (e, pred n) (h r)))

  attempt-idle :
      (i : ℕ) (p : Prog Act Res A) (s : S)
      → ((r : A) × (p ≡ ret r))
        ⊎ ((a : Act) × (k : Res a → Prog Act Res A) × (p ≡ act a k) × (exec i a s ≡ none))
      → attempt exec i p s ≡ (p, s)
  attempt-idle i p s (inl (r, e)) = rw e refl
  attempt-idle i p s (inr (a, k, e, w)) = rw e (rw w refl)

  attempt-IsWithin :
      (i n : ℕ) (p : Prog Act Res A) (s : S)
      → IsWithin n p
      → (m : ℕ) × (m ≤ n) × IsWithin m (attempt exec i p s).0
  attempt-IsWithin i n p s h = elim (attempt-Tried i n p s h) [
    | inl q ↦ (n, omega arith, rw (attempt-idle i p s (inl q)) h)
    | inr (inl (l, w)) ↦ (n - 1, omega arith, w)
    | inr (inr q) ↦ (n, omega arith, rw (attempt-idle i p s (inr q)) h)
  ]

  -- Whatever happens, no thread gets more to do.
  pub interleave-IsWithin :
      (is : List ℕ) (i n : ℕ) (y : System Act Res S A)
      → IsWithin n (y.threads i)
      → IsWithin n ((interleave exec is y).threads i)
  unfolding interleave turn
  interleave-IsWithin [] i n y h = h
  interleave-IsWithin (j ∷ is) i n y h =
      interleave-IsWithin is i n (turn exec j y) (elim (Bool-cases (j == i)) [
        | inl e ↦
            let (m, l, w) = attempt-IsWithin j n (y.threads j) y.shared (rw ((==_iff j i).0 e) h) in
            rw e (IsWithin-le m n (attempt exec j (y.threads j) y.shared).0 l w)
        | inr e ↦ rw e h
      ])

  pub waiting-Stuck :
      (C : Contract S) (Post : ℕ → A → S → Type 0) (n i : ℕ) (y : System Act Res S A)
      → IsSound exec C Post (suc n) y
      → IsWaiting i y
      → C.Stuck i y.shared
  waiting-Stuck C Post n i y sound (a, k, e, w) =
      rw w at ((rw e at (sound.valid i)) n y.shared (sound.relied i) sound.inv)

  module _ (C : Contract S) (Post : ℕ → A → S → Type 0)
      (never_both : (n : ℕ) (y : System Act Res S A)
        → IsSound exec C Post (suc n) y
        → HasReturned 0 y ⊎ IsWaiting 0 y
        → HasReturned 1 y ⊎ IsWaiting 1 y
        → HasReturned 0 y × HasReturned 1 y) where
    abbrev Left : ℕ → ℕ → System Act Res S A → Type 0
    Left a b y = IsWithin a (y.threads 0) × IsWithin b (y.threads 1)

    -- What is left after a turn of each, where the first waits or has returned.
    after_idle :
        (n a b : ℕ) (y : System Act Res S A)
        → IsSound exec C Post (suc n) y
        → Left a b y
        → HasReturned 0 y ⊎ IsWaiting 0 y
        → (a' : ℕ) × (b' : ℕ) × (a' + b' ≤ a + b - 1) × Left a' b' (turn exec 1 (turn exec 0 y))
    unfolding turn
    after_idle n a b y sound h idle =
        rw (attempt-idle 0 (y.threads 0) y.shared idle)
          (elim (attempt-Tried 1 b (y.threads 1) y.shared h.1) [
            | inl q ↦ both (inl q)
            | inr (inl (p, w)) ↦ (a, b - 1, omega arith, (h.0, w))
            | inr (inr q) ↦ both (inr q)
          ])
      where
        ended : (i : ℕ) → HasReturned i y → IsWithin 0 (y.threads i)
        ended i (r, e) = returned-IsWithin (y.threads i) r e

        both :
            HasReturned 1 y ⊎ IsWaiting 1 y
            → (a' : ℕ) × (b' : ℕ) × (a' + b' ≤ a + b - 1)
              × (IsWithin a' (y.threads 0) × IsWithin b' (attempt exec 1 (y.threads 1) y.shared).0)
        both idle' =
            let over = never_both n y sound idle idle' in
            (
              0,
              0,
              omega arith,
              (ended 0 over.0, rw (attempt-idle 1 (y.threads 1) y.shared idle') (ended 1 over.1)),
            )

    after_both :
        (n a b : ℕ) (y : System Act Res S A)
        → IsSound exec C Post (suc n) y
        → Left a b y
        → (a' : ℕ) × (b' : ℕ) × (a' + b' ≤ a + b - 1) × Left a' b' (turn exec 1 (turn exec 0 y))
    unfolding turn
    after_both n a b y sound h = elim (attempt-Tried 0 a (y.threads 0) y.shared h.0) [
      | inl q ↦ after_idle n a b y sound h (inl q)
      | inr (inl (p, w)) ↦
          let (m, l, v) =
            attempt-IsWithin 1 b (y.threads 1) (attempt exec 0 (y.threads 0) y.shared).1 h.1 in
          (a - 1, m, omega arith, (w, v))
      | inr (inr q) ↦ after_idle n a b y sound h (inr q)
    ]

    pub alternate-returned :
        (m a b : ℕ) (y : System Act Res S A)
        → IsSound exec C Post (length (alternate m)) y
        → IsWithin a (y.threads 0)
        → IsWithin b (y.threads 1)
        → a + b ≤ m
        → HasReturned 0 (interleave exec (alternate m) y)
          × HasReturned 1 (interleave exec (alternate m) y)
    unfolding alternate interleave
    alternate-returned zero a b y sound h g l = (
      IsWithin-zero (y.threads 0) (rw (nothing a (omega arith)) at h),
      IsWithin-zero (y.threads 1) (rw (nothing b (omega arith)) at g),
    )
      where
        nothing : (a : ℕ) → a ≤ 0 → a ≡ 0
        nothing a h = omega arith
    alternate-returned (suc m) a b y sound h g l =
        let (a', b', less, (h', g')) = after_both (suc (length (alternate m))) a b y sound (h, g) in
        alternate-returned m a' b' (turn exec 1 (turn exec 0 y))
          (turn-IsSound exec C Post (length (alternate m)) 1 (turn exec 0 y)
            (turn-IsSound exec C Post (suc (length (alternate m))) 0 y sound))
          h' g' (omega arith)
