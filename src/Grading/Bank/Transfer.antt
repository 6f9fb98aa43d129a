-- ===== src/Grading/Bank/Transfer.antt =====
-- The transfer of one unit in `short_tx` (grading/workload.hpp).
use performant_transactional.Base.{
  ℕ, ◌+◌, ◌≤◌, ◌^◌, ◌<◌, true, false, ◌≡◌, ◌≢◌, refl, inl, inr, Bool-cases, arith, if◌then◌else◌,
}
use performant_transactional.Process.{update}
use performant_transactional.Grading.Shared.{
  word_mod, add_word, sub_word, is_negative, World, returned, apply, read_cell, write_cell,
}
use performant_transactional.Grading.Shared.Apply.{apply-if}
use performant_transactional.Grading.Bank.{is_positive, transfer}

-- The words after a transfer, where the balances are read and written one after the other.
unfoldable pub transferred : (ℕ → ℕ) → ℕ → ℕ → ℕ → ℕ
transferred m sender recver =
    let m' = update m sender (sub_word (m sender) 1) in update m' recver (add_word (m' recver) 1)

pub transfer_lem :
    (sender recver : ℕ) (w : World)
    → apply (transfer sender recver) w ≡ (
        if is_positive (w.mem sender)
        then (returned tt, record w { mem = transferred w.mem sender recver })
        else (returned tt, w))
unfolding apply transfer read_cell write_cell transferred
transfer_lem sender recver w = apply-if (is_positive (w.mem sender)) _ _ w

transferred-sender : (m : ℕ → ℕ) (s r : ℕ) → s ≢ r → transferred m s r s ≡ sub_word (m s) 1
unfolding transferred
transferred-sender m s r d = ground arith

transferred-recver : (m : ℕ → ℕ) (s r : ℕ) → s ≢ r → transferred m s r r ≡ add_word (m r) 1
unfolding transferred
transferred-recver m s r d = ground arith

transferred-other : (m : ℕ → ℕ) (s r a : ℕ) → a ≢ s → a ≢ r → transferred m s r a ≡ m a
unfolding transferred
transferred-other m s r a d d' = ground arith

pub positive_bounds : (v : ℕ) → is_positive v ≡ true → (0 < v) × (v < 2 ^ 63)
unfolding is_positive is_negative
positive_bounds v h = ground arith

negative_bounds : (v : ℕ) → v < 2 ^ 63 → is_negative v ≡ false
unfolding is_negative
negative_bounds v h = ground arith

pub sub_one : (v : ℕ) → 0 < v → v < word_mod → sub_word v 1 + 1 ≡ v
unfolding sub_word
sub_one v h h' = omega arith

pub add_one : (v : ℕ) → v + 1 < word_mod → add_word v 1 ≡ v + 1
unfolding add_word
add_one v h = omega arith

-- What a transfer between two accounts may change.
unfoldable pub IsTransfer : ℕ → ℕ → (ℕ → ℕ) → (ℕ → ℕ) → Type 0
IsTransfer sender recver m m' =
    (m' sender + m' recver ≡ m sender + m recver)
    × (m' sender ≤ m sender)
    × ((a : ℕ) → a ≢ sender → a ≢ recver → m' a ≡ m a)

transferred-IsTransfer :
    (m : ℕ → ℕ) (sender recver : ℕ)
    → sender ≢ recver
    → is_positive (m sender) ≡ true
    → m recver + 1 < word_mod
    → IsTransfer sender recver m (transferred m sender recver)
unfolding IsTransfer
transferred-IsTransfer m sender recver d p room =
    let (low, high) = positive_bounds (m sender) p in
    let taken = sub_one (m sender) low (omega arith) in
    rw
      (
        transferred-sender m sender recver d,
        transferred-recver m sender recver d,
        add_one (m recver) room,
      )
      (omega arith, omega arith, λ a h h'. transferred-other m sender recver a h h')

-- Between two different accounts, the second with room for one more, a transfer keeps the sum of
-- the two balances and all other words, and the sender's balance does not grow.
pub transfer-IsTransfer :
    (sender recver : ℕ) (w : World)
    → sender ≢ recver
    → w.mem recver + 1 < word_mod
    → IsTransfer sender recver w.mem (apply (transfer sender recver) w).1.mem
unfolding IsTransfer
transfer-IsTransfer sender recver w d room =
    rw (transfer_lem sender recver w) (elim (Bool-cases (is_positive (w.mem sender))) [
      | inl e ↦ rw e (transferred-IsTransfer w.mem sender recver d e room)
      | inr e ↦ rw e (refl, omega arith, λ a h h'. refl)
    ])
