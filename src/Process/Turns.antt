-- ===== src/Process/Turns.antt =====
-- Threads without loops: enough turns of its own bring a thread to its end, whatever the others do.
use performant_transactional.Base.{
  ℕ, zero, suc, ◌-◌, ◌≤◌, List, [], ◌∷◌, ◌≡◌, refl, inl, inr, ◌==◌, ==_iff, Bool-cases, arith,
  if◌then◌else◌,
}
use performant_transactional.Process.{Prog, ret, act, Semantics, System, advance, turn, interleave}

-- How often `i` stands in the list.
unfoldable pub count : ℕ → List ℕ → ℕ
count i [] = 0
count i (j ∷ js) = if j == i then suc (count i js) else count i js

pred : (n : ℕ) → suc n - 1 ≡ n
pred n = omega arith

none_left : (n : ℕ) → n ≤ 0 → n ≡ 0
none_left n g = omega arith

module _ {Act : Type 0} {Res : Act → Type 0} {A : Type 0} where
  -- The thread returns after at most `n` actions, whatever they answer.
  unfoldable pub IsWithin : ℕ → Prog Act Res A → Type 0
  IsWithin n (ret a) = Unit {0}
  IsWithin zero (act a k) = ⊥
  IsWithin (suc n) (act a k) = (r : Res a) → IsWithin n (k r)

  ended : (p : Prog Act Res A) → IsWithin 0 p → (r : A) × (p ≡ ret r)
  unfolding IsWithin
  ended (ret a) h = (a, refl)
  ended (act a k) h = absurd h

  module _ {S : Type 0} (exec : ℕ → Semantics Act Res S) where
    advance-IsWithin :
        (n i : ℕ) (p : Prog Act Res A) (s : S)
        → IsWithin n p
        → IsWithin (n - 1) (advance (exec i) p s).0
    unfolding IsWithin
    advance-IsWithin n i (ret a) s h = tt
    advance-IsWithin zero i (act a k) s h = absurd h
    advance-IsWithin (suc n) i (act a k) s h = rw (pred n) (h (exec i a s).0)

    pub interleave-IsWithin :
        (is : List ℕ) (n i : ℕ) (y : System Act Res S A)
        → IsWithin n (y.threads i)
        → n ≤ count i is
        → (r : A) × ((interleave exec is y).threads i ≡ ret r)
    unfolding interleave turn count
    interleave-IsWithin [] n i y h g = ended (y.threads i) (rw (none_left n g) at h)
    interleave-IsWithin (j ∷ is) n i y h g = elim (Bool-cases (j == i)) [
      | inl e ↦
          let enough = rw e at g in
          interleave-IsWithin is (n - 1) i (turn exec j y)
            (rw e (advance-IsWithin n j (y.threads j) y.shared (rw ((==_iff j i).0 e) h)))
            (omega arith)
      | inr e ↦ interleave-IsWithin is n i (turn exec j y) (rw e h) (rw e at g)
    ]
