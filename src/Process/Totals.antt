-- ===== src/Process/Totals.antt =====
-- Sums over the threads below a number.
use performant_transactional.Base.{
  ℕ, zero, suc, ◌+◌, ◌*◌, ◌≤◌, ◌<◌, false, ◌≡◌, ◌≢◌, refl, ap, inl, inr, ◌==◌, ==_iff, Bool-cases,
  arith,
}
use performant_transactional.Process.{update}

-- The sum over the threads below `n`.
unfoldable pub total : ℕ → (ℕ → ℕ) → ℕ
total zero left = 0
total (suc n) left = left n + total n left

total-update_above : (n i v : ℕ) (left : ℕ → ℕ) → n ≤ i → total n (update left i v) ≡ total n left
unfolding total
total-update_above zero i v left h = refl
total-update_above (suc n) i v left h =
    rw (total-update_above n i v left (omega arith)) (elim (Bool-cases (i == n)) [
      | inl e ↦ absurd (apart i n h ((==_iff i n).0 e))
      | inr e ↦ rw e refl
    ])
  where
    apart : (a b : ℕ) → suc b ≤ a → a ≢ b
    apart a b g e = absurd (omega arith)

pub total-update :
    (n i v : ℕ) (left : ℕ → ℕ) → i < n → total n (update left i v) + left i ≡ total n left + v
unfolding total
total-update zero i v left h = absurd (omega arith)
total-update (suc n) i v left h = elim (Bool-cases (i == n)) [
  | inl e ↦
      let same = ap left ((==_iff i n).0 e) in
      let above = total-update_above n i v left (at_least i n ((==_iff i n).0 e)) in
      rw e (omega arith)
  | inr e ↦ let below = total-update n i v left (smaller i n h e) in rw e (omega arith)
]
  where
    at_least : (a b : ℕ) → a ≡ b → b ≤ a
    at_least a b g = omega arith

    smaller : (a b : ℕ) → a < suc b → (a == b) ≡ false → a < b
    smaller a b g e = ground arith

pub total-le : (n i : ℕ) (left : ℕ → ℕ) → i < n → left i ≤ total n left
unfolding total
total-le zero i left h = absurd (omega arith)
total-le (suc n) i left h = elim (Bool-cases (i == n)) [
  | inl e ↦ let same = ap left ((==_iff i n).0 e) in omega arith
  | inr e ↦ let below = total-le n i left (smaller i n h e) in omega arith
]
  where
    smaller : (a b : ℕ) → a < suc b → (a == b) ≡ false → a < b
    smaller a b g e = ground arith

pub total-const :
    (n rounds : ℕ) (left : ℕ → ℕ) → ((i : ℕ) → i < n → left i ≡ rounds) → total n left ≡ rounds * n
unfolding total
total-const zero rounds left h = omega arith
total-const (suc n) rounds left h =
    let here = h n (omega arith) in
    let below = total-const n rounds left (λ i g. h i (omega arith)) in grind arith
