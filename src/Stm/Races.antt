-- ===== src/Stm/Races.antt =====
-- Two interleavings in which a read-only transaction commits without a snapshot: a reader of two
-- words (thread 0) beside a writer of both (thread 1). Words are one byte long here.
use performant_transactional.Base.{
  ℕ, zero, suc, ◌≡◌, refl, Bool, true, false, Option, none, some, List, [], ◌∷◌, ◌++◌, has,
}
use performant_transactional.Process.{ret, ◌>>=◌, System, interleave}
use performant_transactional.Stm.State.{
  State, exec, Act, Res, Tm, pure, release_all, load_bytes, store_bytes,
}
use performant_transactional.Stm.Lock.{
  lock, unlock, get_version, is_locked, set_version, expected_word, locked_word, version_of,
  is_locked_word, version_word,
}
use performant_transactional.Stm.Region.{MemoryRegion, tm_align}
use performant_transactional.Stm.Transaction.{
  Transaction, tm_begin, new_transaction, delete_txn, insert_or_assign, find, insert_read,
}
use performant_transactional.Stm.Access.{
  Private, take_bytes, put_bytes, give_up, read_word_ro, read_word, read_words, write_words,
  tm_read, tm_write,
}
use performant_transactional.Stm.Access.Offsets.{offsets}
use performant_transactional.Stm.Commit.{
  lock_write_set, validate, write_back, publish, commit, end_rw, end_ro, tm_end,
}

abbrev bytes_region : MemoryRegion
bytes_region = record { self = 1; size = 8; align = 1; locks = 2; start = 8 }

-- The two bytes that were read, if the transaction committed.
abbrev pub Outcome : Type 0
Outcome = Option (ℕ × ℕ)

finish : Private → Bool → Outcome
finish m true = some (m 0, m 1)
finish m false = none

-- A read-only transaction that reads `first` and then `second`.
read_second : ℕ → Option Transaction × Private → Tm Outcome
unfolding finish
read_second second (none, m) = pure none
read_second second (some txn, m) = do
  (continued, m') ← tm_read bytes_region txn second 1 1 m
  elim continued [
    | none ↦ pure none
    | some txn' ↦ tm_end txn' >>= λ committed. pure (finish m' committed)
  ]

read_first : ℕ → ℕ → Option Transaction → Tm Outcome
unfolding read_second
read_first first second none = pure none
read_first first second (some txn) = do
  r ← tm_read bytes_region txn first 1 0 (λ _. 0)
  read_second second r

pub reader : ℕ → ℕ → Tm Outcome
unfolding read_first
reader first second = tm_begin true >>= read_first first second

-- A transaction that writes `x` at `first` and `y` at `second`.
write_both : ℕ → ℕ → Private → Option Transaction → Tm Outcome
write_both first second m none = pure none
write_both first second m (some txn) = do
  txn' ← tm_write bytes_region txn m 0 1 first
  txn'' ← tm_write bytes_region txn' m 1 1 second
  committed ← tm_end txn''
  pure none

abbrev values : ℕ → ℕ → Private
values x y zero = x
values x y (suc a) = y

pub writer : ℕ → ℕ → ℕ → ℕ → Tm Outcome
unfolding write_both
writer first second x y = tm_begin false >>= write_both first second (values x y)

abbrev both : Tm Outcome → Tm Outcome → ℕ → Tm Outcome
both p q zero = p
both p q (suc i) = q

-- Fresh locks, clock at 0, memory `m`.
abbrev fresh : (ℕ → ℕ) → State
fresh m = record {
  gvc = 0;
  locks = λ _. 0;
  mem = m;
  seg_list = [];
  luck = [];
  blocks = 3 ∷ 4 ∷ [];
  freed = [];
}

abbrev turns : ℕ → ℕ → List ℕ
turns zero i = []
turns (suc n) i = i ∷ turns n i

pub start : Tm Outcome → Tm Outcome → (ℕ → ℕ) → System Act Res State Outcome
start p q m = record { shared = fresh m; threads = both p q }

-- The writer stores byte 8 between the reader's first checks and its copy, and releases the lock
-- between the reader's last two loads, `getVersion` and `isLocked`.
pub torn_order : List ℕ
torn_order = turns 9 0 ++ turns 8 1 ++ turns 2 0 ++ turns 1 1 ++ turns 2 0

-- The code that the two transactions run.
opened : Unit {0}
unfolding exec interleave start reader writer tm_begin new_transaction delete_txn release_all
    load_bytes store_bytes insert_or_assign find insert_read has lock unlock get_version is_locked
    set_version expected_word locked_word version_of is_locked_word version_word tm_align offsets
    take_bytes put_bytes give_up read_word_ro read_word read_words tm_read write_words tm_write
    lock_write_set validate write_back publish commit end_rw end_ro tm_end
opened = tt

-- A read-only transaction commits with a new word beside an old one, for any memory and values.
pub torn_snapshot :
    (m : ℕ → ℕ) (x y : ℕ)
    → (interleave (λ _. exec) torn_order (start (reader 9 8) (writer 8 9 x y) m)).threads 0
      ≡ ret (some (m 9, x))
unfolding opened torn_order
torn_snapshot m x y = refl

-- The writer's addresses share a lock: it is released after the first word, before the second is
-- written, and the reader begins after the clock has moved.
pub shared_order : List ℕ
shared_order = turns 9 1 ++ turns 13 0

-- A read-only transaction that begins during a commit, and reads two words under one lock, commits
-- with the new value of the first and the old value of the second, for any memory and values.
pub torn_stripe :
    (m : ℕ → ℕ) (x y : ℕ)
    → (interleave (λ _. exec) shared_order (start (reader 8 10008) (writer 8 10008 x y) m)).threads
        0
      ≡ ret (some (x, m 10008))
unfolding opened shared_order
torn_stripe m x y = refl
