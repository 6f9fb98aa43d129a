-- ===== src/Grading/Bank/Examples.antt =====
-- The theorems on the transactions of `WorkloadBank` over several segments, at one list of two.
use performant_transactional.Base.{◌-◌, ◌^◌, true, some, [], ◌∷◌, ◌≡◌, refl, arith, inl}
use performant_transactional.Process.{update}
use performant_transactional.Grading.Shared.{
  add_word, mul_word, is_negative, read_cell, World, returned, apply,
}
use performant_transactional.Grading.Bank.{
  Bank, short_tx, long_tx, long_loop, long_end, long_result, after_accounts, sum_accounts, alloc_tx,
}
use performant_transactional.Grading.Bank.Layout.Changes.{IsSpread, IsApartFrom}
use performant_transactional.Grading.Bank.Alloc.{alloc_tx-long_tx}
use performant_transactional.Grading.Bank.Audit.{AccountsAt, population}
use performant_transactional.Grading.Bank.Layout.{Place, segments, IsLaid, IsClear, IsApart}
use performant_transactional.Grading.Bank.Layout.Money.{AreBelow, IsBelow}
use performant_transactional.Grading.Bank.Short.{short_tx-long_tx}

abbrev bank : Bank
bank = record { nbaccounts = 2; init_balance = 5; start = 100 }

-- Accounts of 5 and 2, with a parity of 1, and an account of 7.
abbrev near_place : Place
near_place = record { address = 100; segment = record { parity = 1; accounts = 5 ∷ 2 ∷ [] } }

abbrev far_place : Place
far_place = record { address = 200; segment = record { parity = 0; accounts = 7 ∷ [] } }

abbrev filled : World
filled = record {
  mem =
      update
        (update
          (update (update (update (update (update (λ a. 0) 100 2) 108 200) 116 1) 124 5) 132 2) 200
          1)
        224 7;
  blocks = 300 ∷ [];
}

filled-IsLaid : IsLaid filled.mem (near_place ∷ far_place ∷ [])
unfolding IsLaid AccountsAt
filled-IsLaid = (
  λ e. absurd (omega arith),
  refl,
  refl,
  (refl, (refl, tt)),
  refl,
  (λ e. absurd (omega arith), refl, refl, (refl, tt), refl, tt),
)

apart : IsApart (near_place ∷ far_place ∷ [])
unfolding IsApart IsClear
apart = ((inl (omega arith), tt), (tt, tt))

below : IsBelow (2 ^ 63 - 1) (near_place ∷ far_place ∷ [])
unfolding IsBelow AreBelow
below = ((omega arith, (omega arith, tt)), ((omega arith, tt), tt))

spread : IsSpread 2 (300 ∷ []) (near_place ∷ far_place ∷ [])
unfolding IsSpread IsApartFrom
spread = (
  omega arith,
  omega arith,
  (inl (omega arith), tt),
  (inl (omega arith), tt),
  (omega arith, omega arith, tt, (inl (omega arith), tt), tt),
)

filled_balanced : (apply (long_tx 4 bank 9) filled).0 ≡ returned (some (true, 3))
unfolding long_tx long_loop long_end long_result after_accounts sum_accounts apply read_cell
    add_word mul_word is_negative
filled_balanced = refl

-- The account of the second segment is removed, and the segment with it.
alloc_tx-long_tx_example :
    let o = apply (alloc_tx 4 bank 2) filled in
    (o.0 ≡ returned (some tt)) × ((apply (long_tx 4 bank 9) o.1).0 ≡ returned (some (true, 2)))
unfolding population segments is_negative
alloc_tx-long_tx_example =
    alloc_tx-long_tx 4 bank 2 9 near_place (far_place ∷ []) filled (omega arith) refl refl
      (omega arith) (λ e. absurd (omega arith)) spread filled-IsLaid filled_balanced

-- From the last account to the first.
short_tx-long_tx_example :
    let o = apply (short_tx 3 bank 2 0) filled in
    (o.0 ≡ returned (some true))
    × ((apply (long_tx 3 bank 9) o.1).0 ≡ (apply (long_tx 3 bank 9) filled).0)
unfolding population segments
short_tx-long_tx_example =
    short_tx-long_tx 3 bank 2 0 9 near_place (far_place ∷ []) filled (omega arith) (omega arith)
      (omega arith) refl apart below filled-IsLaid
