-- ===== src/Stm/Alone/Roundtrip.antt =====
-- What a commit leaves in memory is what the transaction saw.
use performant_transactional.Base.{
  ℕ, ◌*◌, ◌<◌, ◌^◌, ◌≡◌, refl, [], Bool, true, false, All, if◌then◌else◌,
}
use performant_transactional.Stm.State.{State}
use performant_transactional.Stm.Lock.{version_of}
use performant_transactional.Stm.Transaction.{Transaction}
use performant_transactional.Stm.Access.{take_bytes}
use performant_transactional.Stm.Commit.{tm_end}
use performant_transactional.Stm.Alone.{alone}
use performant_transactional.Stm.Alone.Locking.{calm, HoldsOnly}
use performant_transactional.Stm.Alone.Ending.{
  is_valid, end_step, committed, deleted, tm_end-end_step,
}
use performant_transactional.Stm.Alone.Words.{IsWord, HasKeys, take_bytes-store_all}
use performant_transactional.Stm.Alone.Reading.{found}

pick_second {ℓ} :
    {A : Type ℓ} (b c : Bool) (x y z : A)
    → b ≡ false
    → c ≡ true
    → (if b then x else if c then y else z) ≡ y
pick_second b c x y z p q = rw (p, q)

pick_else {ℓ} : {A : Type ℓ} (b : Bool) (x y : A) → b ≡ false → (if b then x else y) ≡ y
pick_else b x y p = rw p

-- A read-write transaction that is valid commits, and then every aligned word of shared memory is
-- the word that the transaction found there: its last write, or what was there before.
pub tm_end-found :
    (w : ℕ) (txn : Transaction) (s : State) (a k : ℕ)
    → HoldsOnly [] s.locks
    → ((l : ℕ) → version_of (s.locks l) < 2 ^ 31)
    → txn.is_ro ≡ false
    → is_valid txn (calm s) ≡ true
    → All (IsWord w) txn.write_set
    → HasKeys txn.write_set
    → a ≡ k * w
    → ((alone (tm_end txn) (calm s)).0 ≡ true)
      × (take_bytes (alone (tm_end txn) (calm s)).1.mem a w ≡ found w txn s a)
unfolding end_step committed deleted found
tm_end-found w txn s a k free small rw_mode valid words keys e =
    rw
      (
        tm_end-end_step txn s free small,
        pick_second txn.is_ro (is_valid txn (calm s)) _ _ _ rw_mode valid,
        pick_else txn.is_ro _ _ rw_mode,
      )
      (refl, take_bytes-store_all w txn.write_set s.mem a k e words keys)
