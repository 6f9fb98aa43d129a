-- ===== src/SyncExamples/Counters.antt =====
-- counter1.c to counter4.c of sync-examples/: threads that count up one shared number. An access to
-- the number or to the lock is one action. A round in the first and the third program is a load and
-- then a store; in the second these are under a lock; in the fourth it is one fetch_add.
pub mod Locked
pub mod Fetched
pub mod Lost
pub mod Ends
pub mod Order
use performant_transactional.Base.{
  ℕ, zero, suc, ◌+◌, ◌-◌, ◌*◌, ◌%◌, ◌^◌, Bool, Option, none, some, List, ◌==◌, ltb, if◌then◌else◌,
}
use performant_transactional.Process.{Prog, ret, act, ◌>>=◌, ◌>>◌, System, update}
use performant_transactional.Process.Blocking.{Blocking, interleave}

-- `counter` of type int, by its bits, and the lock. `left` is not in the code: how many rounds each
-- thread has still to count.
pub record Shared : Type 0 where
  pub counter : ℕ
  pub holder : Option ℕ
  pub left : ℕ → ℕ

abbrev pub int_mod : ℕ
int_mod = 2 ^ 32

pub data Action : Type 0 where
  load fetch_add acquire release : Action
  store : ℕ → Action

abbrev pub Answer : Action → Type 0
Answer load = ℕ
Answer fetch_add = ℕ
Answer acquire = Unit {0}
Answer release = Unit {0}
Answer (store v) = Unit {0}

-- One round less.
unfoldable pub spend : ℕ → (ℕ → ℕ) → ℕ → ℕ
spend i left = update left i (left i - 1)

-- `lock_acquire` waits while some thread holds the lock.
abbrev pub take : ℕ → Option ℕ → Shared → Option (Unit {0} × Shared)
take i none s = some (tt, record s { holder = some i })
take i (some j) s = none

unfoldable pub exec : ℕ → Blocking Action Answer Shared
exec i load s = some (s.counter, s)
exec i (store v) s = some (tt, record s { counter = v; left = spend i s.left })
exec i fetch_add s =
    some (s.counter, record s { counter = (s.counter + 1) % int_mod; left = spend i s.left })
exec i acquire s = take i s.holder s
exec i release s = some (tt, record s { holder = none })

abbrev pub Thread : Type 0
Thread = Prog Action Answer (Unit {0})

-- `count` of counter1.c
unfoldable pub count_plain : ℕ → Thread
count_plain zero = ret tt
count_plain (suc n) = do
  local ← act load ret
  act (store ((local + 1) % int_mod)) ret
  count_plain n

-- `count` of counter2.c
unfoldable pub count_locked : ℕ → Thread
count_locked zero = ret tt
count_locked (suc n) = do
  act acquire ret
  local ← act load ret
  act (store ((local + 1) % int_mod)) ret
  act release ret
  count_locked n

-- `count` of counter3.c
unfoldable pub count_atomic : ℕ → Thread
count_atomic zero = ret tt
count_atomic (suc n) = do
  read_copy ← act load ret
  act (store ((read_copy + 1) % int_mod)) ret
  count_atomic n

-- `count` of counter4.c
unfoldable pub count_fetch : ℕ → Thread
count_fetch zero = ret tt
count_fetch (suc n) = do act fetch_add ret; count_fetch n

unfoldable pub runs_of : ℕ → ℕ → ℕ → ℕ
runs_of nbthreads runs i = if ltb i nbthreads then runs else 0

-- `main`: the threads are created, each of which counts `runs` times.
module _ (count : ℕ → Thread) (nbthreads runs : ℕ) where
  unfoldable pub begin : System Action Answer Shared (Unit {0})
  begin = record {
    shared = record { counter = 0; holder = none; left = runs_of nbthreads runs };
    threads = λ i. count (runs_of nbthreads runs i);
  }

  unfoldable pub after_turns : List ℕ → System Action Answer Shared (Unit {0})
  after_turns is = interleave exec is begin

-- `main` after the threads are joined: whether it prints "Counted up to".
unfoldable pub counted_up : ℕ → ℕ → ℕ → Bool
counted_up nbthreads runs counter = counter == runs * nbthreads

-- `main` of counter1.c to counter4.c, with the order of the turns: whether it prints "Counted up to"
abbrev pub counter1 : ℕ → ℕ → List ℕ → Bool
counter1 nbthreads runs is =
    counted_up nbthreads runs (after_turns count_plain nbthreads runs is).shared.counter

abbrev pub counter2 : ℕ → ℕ → List ℕ → Bool
counter2 nbthreads runs is =
    counted_up nbthreads runs (after_turns count_locked nbthreads runs is).shared.counter

abbrev pub counter3 : ℕ → ℕ → List ℕ → Bool
counter3 nbthreads runs is =
    counted_up nbthreads runs (after_turns count_atomic nbthreads runs is).shared.counter

abbrev pub counter4 : ℕ → ℕ → List ℕ → Bool
counter4 nbthreads runs is =
    counted_up nbthreads runs (after_turns count_fetch nbthreads runs is).shared.counter
