-- ===== src/Process/Blocking/Turns.antt =====
-- Threads without loops and without waiting come to their end, whatever the others do.
use performant_transactional.Base.{
  ℕ, zero, suc, ◌-◌, ◌≤◌, some, List, [], ◌∷◌, ◌≡◌, refl, inl, inr, ◌==◌, ==_iff, Bool-cases, arith,
}
use performant_transactional.Process.{Prog, ret, act, System, update}
use performant_transactional.Process.Turns.{count}
use performant_transactional.Process.Blocking.{Blocking, attempt, turn, interleave}

module _ {Act : Type 0} {Res : Act → Type 0} {S A : Type 0} (exec : ℕ → Blocking Act Res S) where
  -- A turn of a thread that is known.
  pub turn-at :
      (i : ℕ) (y : System Act Res S A) (p : Prog Act Res A)
      → y.threads i ≡ p
      → turn exec i y ≡ record {
        shared = (attempt exec i p y.shared).1;
        threads = update y.threads i (attempt exec i p y.shared).0;
      }
  unfolding turn
  turn-at i y p e = rw e refl

  -- The thread returns after at most `n` actions, none of which ever waits.
  unfoldable pub IsFree : ℕ → ℕ → Prog Act Res A → Type 0
  IsFree i n (ret a) = Unit {0}
  IsFree i zero (act a k) = ⊥
  IsFree i (suc n) (act a k) =
      ((s : S) → (r : Res a) × (u : S) × (exec i a s ≡ some (r, u)))
      × ((r : Res a) → IsFree i n (k r))

  pub IsFree-suc : (i n : ℕ) (p : Prog Act Res A) → IsFree i n p → IsFree i (suc n) p
  unfolding IsFree
  IsFree-suc i n (ret a) h = tt
  IsFree-suc i zero (act a k) h = absurd h
  IsFree-suc i (suc n) (act a k) h = (h.0, λ r. IsFree-suc i n (k r) (h.1 r))

  ended : (i : ℕ) (p : Prog Act Res A) → IsFree i 0 p → (r : A) × (p ≡ ret r)
  unfolding IsFree
  ended i (ret a) h = (a, refl)
  ended i (act a k) h = absurd h

  attempt-IsFree :
      (n i : ℕ) (p : Prog Act Res A) (s : S)
      → IsFree i n p
      → IsFree i (n - 1) (attempt exec i p s).0
  unfolding IsFree
  attempt-IsFree n i (ret a) s h = tt
  attempt-IsFree zero i (act a k) s h = absurd h
  attempt-IsFree (suc n) i (act a k) s h = let (r, u, e) = h.0 s in rw (e, pred n) (h.1 r)
    where
      pred : (n : ℕ) → suc n - 1 ≡ n
      pred n = omega arith

  pub interleave-IsFree :
      (is : List ℕ) (n i : ℕ) (y : System Act Res S A)
      → IsFree i n (y.threads i)
      → n ≤ count i is
      → (r : A) × ((interleave exec is y).threads i ≡ ret r)
  unfolding interleave turn count
  interleave-IsFree [] n i y h g = ended i (y.threads i) (rw (nothing n g) at h)
    where
      nothing : (n : ℕ) → n ≤ 0 → n ≡ 0
      nothing n g = omega arith
  interleave-IsFree (j ∷ is) n i y h g = elim (Bool-cases (j == i)) [
    | inl e ↦
        let enough = rw e at g in
        interleave-IsFree is (n - 1) i (turn exec j y)
          (rw (e, (==_iff j i).0 e) (attempt-IsFree n i (y.threads i) y.shared h)) (omega arith)
    | inr e ↦ interleave-IsFree is n i (turn exec j y) (rw e h) (rw e at g)
  ]
