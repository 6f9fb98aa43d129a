-- ===== src/Grading/Bank/Layout/Money.antt =====
-- The money on the accounts of `WorkloadBank` (grading/workload.hpp), and what a store to one of them
-- makes of it.
use performant_transactional.Base.{
  ℕ, zero, suc, ◌+◌, ◌-◌, ◌≤◌, ◌<◌, ◌^◌, false, List, [], ◌∷◌, ◌≡◌, refl, inl, inr, ltb, ltb→lt,
  Bool-cases, length, arith,
}
use performant_transactional.Grading.Shared.{is_negative}
use performant_transactional.Grading.Bank.Audit.{sum, has_negative, has_debt, population, money}
use performant_transactional.Grading.Bank.Layout.{
  Place, segments, get_at, set_at, balance, set_balance,
}
use performant_transactional.Grading.Bank.Layout.Stores.{behind}

sum-set_at :
    (xs : List ℕ) (i v : ℕ) → i < length xs → sum (set_at xs i v) + get_at xs i ≡ sum xs + v
unfolding sum set_at get_at
sum-set_at [] i v h = absurd (omega arith)
sum-set_at (x ∷ xs) zero v h = omega arith
sum-set_at (x ∷ xs) (suc i) v h = let e = sum-set_at xs i v (omega arith) in omega arith

pub money-set_balance :
    (ps : List Place) (id v : ℕ)
    → id < population (segments ps)
    → money (segments (set_balance ps id v)) + balance ps id ≡ money (segments ps) + v
unfolding money population segments set_balance balance
money-set_balance [] id v h = absurd (omega arith)
money-set_balance (p ∷ ps) id v h =
    let n = length p.segment.accounts in
    elim (Bool-cases (ltb id n)) [
      | inl e ↦ let here = sum-set_at p.segment.accounts id v (ltb→lt id n e) in rw e (omega arith)
      | inr e ↦
          let there =
            money-set_balance ps (id - n) v (behind n id (population (segments ps)) e h) in
          rw e (omega arith)
    ]

-- All balances are below `limit`.
unfoldable pub AreBelow : ℕ → List ℕ → Type 0
AreBelow limit [] = Unit {0}
AreBelow limit (x ∷ xs) = (x < limit) × AreBelow limit xs

unfoldable pub IsBelow : ℕ → List Place → Type 0
IsBelow limit [] = Unit {0}
IsBelow limit (p ∷ ps) = AreBelow limit p.segment.accounts × IsBelow limit ps

AreBelow-get_at :
    (limit : ℕ) (xs : List ℕ) (i : ℕ) → i < length xs → AreBelow limit xs → get_at xs i < limit
unfolding AreBelow get_at
AreBelow-get_at limit [] i h b = absurd (omega arith)
AreBelow-get_at limit (x ∷ xs) zero h b = b.0
AreBelow-get_at limit (x ∷ xs) (suc i) h b = AreBelow-get_at limit xs i (omega arith) b.1

AreBelow-set_at :
    (limit : ℕ) (xs : List ℕ) (i v : ℕ)
    → v < limit
    → AreBelow limit xs
    → AreBelow limit (set_at xs i v)
unfolding AreBelow set_at
AreBelow-set_at limit [] i v h b = tt
AreBelow-set_at limit (x ∷ xs) zero v h b = (h, b.1)
AreBelow-set_at limit (x ∷ xs) (suc i) v h b = (b.0, AreBelow-set_at limit xs i v h b.1)

AreBelow-weaken : (k limit : ℕ) (xs : List ℕ) → k ≤ limit → AreBelow k xs → AreBelow limit xs
unfolding AreBelow
AreBelow-weaken k limit [] h b = tt
AreBelow-weaken k limit (x ∷ xs) h b = (omega arith, AreBelow-weaken k limit xs h b.1)

pub IsBelow-weaken : (k limit : ℕ) (ps : List Place) → k ≤ limit → IsBelow k ps → IsBelow limit ps
unfolding IsBelow
IsBelow-weaken k limit [] h b = tt
IsBelow-weaken k limit (p ∷ ps) h b =
    (AreBelow-weaken k limit p.segment.accounts h b.0, IsBelow-weaken k limit ps h b.1)

pub IsBelow-balance :
    (limit : ℕ) (ps : List Place) (id : ℕ)
    → id < population (segments ps)
    → IsBelow limit ps
    → balance ps id < limit
unfolding IsBelow population segments balance
IsBelow-balance limit [] id h b = absurd (omega arith)
IsBelow-balance limit (p ∷ ps) id h b =
    let n = length p.segment.accounts in
    elim (Bool-cases (ltb id n)) [
      | inl e ↦ rw e (AreBelow-get_at limit p.segment.accounts id (ltb→lt id n e) b.0)
      | inr e ↦
          rw e (IsBelow-balance limit ps (id - n) (behind n id (population (segments ps)) e h) b.1)
    ]

pub IsBelow-set_balance :
    (limit : ℕ) (ps : List Place) (id v : ℕ)
    → v < limit
    → IsBelow limit ps
    → IsBelow limit (set_balance ps id v)
unfolding IsBelow set_balance
IsBelow-set_balance limit [] id v h b = tt
IsBelow-set_balance limit (p ∷ ps) id v h b =
    elim (Bool-cases (ltb id (length p.segment.accounts))) [
      | inl e ↦ rw e (AreBelow-set_at limit p.segment.accounts id v h b.0, b.1)
      | inr e ↦ rw e (b.0, IsBelow-set_balance limit ps (id - length p.segment.accounts) v h b.1)
    ]

not_negative : (v : ℕ) → v < 2 ^ 63 → is_negative v ≡ false
unfolding is_negative
not_negative v h = ground arith

has_negative-AreBelow : (xs : List ℕ) → AreBelow (2 ^ 63) xs → has_negative xs ≡ false
unfolding AreBelow has_negative
has_negative-AreBelow [] b = refl
has_negative-AreBelow (x ∷ xs) b = rw (not_negative x b.0, has_negative-AreBelow xs b.1) refl

pub has_debt-IsBelow : (ps : List Place) → IsBelow (2 ^ 63) ps → has_debt (segments ps) ≡ false
unfolding IsBelow has_debt segments
has_debt-IsBelow [] b = refl
has_debt-IsBelow (p ∷ ps) b =
    rw (has_negative-AreBelow p.segment.accounts b.0, has_debt-IsBelow ps b.1) refl
