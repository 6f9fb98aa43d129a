-- ===== src/SyncExamples/Elections.antt =====
-- election1.c to election4.c of sync-examples/: threads that elect one leader for each round. An access
-- to an element of `leader` or `nb_leaders`, or to the lock, is one action. The numbers of threads and
-- rounds, which stay below THREADS and RUNS, do not wrap.
pub mod Rounds
pub mod Exchange
pub mod Locked
pub mod Ends
pub mod Order
pub mod Twice
use performant_transactional.Base.{
  ℕ, zero, suc, ◌+◌, ◌%◌, ◌^◌, Bool, true, false, Option, none, some, List, ◌==◌, ltb,
  if◌then◌else◌,
}
use performant_transactional.Process.{Prog, ret, act, ◌>>=◌, ◌>>◌, System, update}
use performant_transactional.Process.Blocking.{Blocking, interleave}

-- The arrays by index, and the lock.
pub record Shared : Type 0 where
  pub leader : ℕ → ℕ
  pub nb_leaders : ℕ → ℕ
  pub holder : Option ℕ

abbrev pub int_mod : ℕ
int_mod = 2 ^ 32

pub data Action : Type 0 where
  load_leader : ℕ → Action
  store_leader exchange : ℕ → ℕ → Action
  add_leader : ℕ → Action
  acquire release : Action

abbrev pub Answer : Action → Type 0
Answer (load_leader r) = ℕ
Answer (store_leader r tid) = Unit {0}
Answer (exchange r tid) = Bool
Answer (add_leader r) = Unit {0}
Answer acquire = Unit {0}
Answer release = Unit {0}

abbrev pub take : ℕ → Option ℕ → Shared → Option (Unit {0} × Shared)
take i none s = some (tt, record s { holder = some i })
take i (some j) s = none

-- `atomic_compare_exchange_strong` with the expected value 0
abbrev pub exchanged : Bool → ℕ → ℕ → Shared → Bool × Shared
exchanged true r tid s = (true, record s { leader = update s.leader r tid })
exchanged false r tid s = (false, s)

unfoldable pub exec : ℕ → Blocking Action Answer Shared
exec i (load_leader r) s = some (s.leader r, s)
exec i (store_leader r tid) s = some (tt, record s { leader = update s.leader r tid })
exec i (exchange r tid) s = some (exchanged (s.leader r == 0) r tid s)
exec i (add_leader r) s =
    some (tt, record s { nb_leaders = update s.nb_leaders r ((s.nb_leaders r + 1) % int_mod) })
exec i acquire s = take i s.holder s
exec i release s = some (tt, record s { holder = none })

abbrev pub Thread : Type 0
Thread = Prog Action Answer (Unit {0})

-- What the loaded leader decides in election1.c to election3.c
abbrev pub claim : Bool → ℕ → ℕ → Thread
claim true tid r = do act (store_leader r tid) ret; act (add_leader r) ret
claim false tid r = ret tt

-- A round of election1.c
unfoldable pub round_plain : ℕ → ℕ → Thread
round_plain tid r = do seen ← act (load_leader r) ret; claim (seen == 0) tid r

-- A round of election2.c
unfoldable pub round_locked : ℕ → ℕ → Thread
round_locked tid r = do
  act acquire ret
  seen ← act (load_leader r) ret
  claim (seen == 0) tid r
  act release ret

-- A round of election3.c, where the elements are atomic
unfoldable pub round_atomic : ℕ → ℕ → Thread
round_atomic tid r = do seen ← act (load_leader r) ret; claim (seen == 0) tid r

abbrev pub boast : Bool → ℕ → Thread
boast true r = act (add_leader r) ret
boast false r = ret tt

-- A round of election4.c
unfoldable pub round_exchange : ℕ → ℕ → Thread
round_exchange tid r = do won ← act (exchange r tid) ret; boast won r

-- `elect`: `n` rounds from `r` on
unfoldable pub elect : (ℕ → ℕ → Thread) → ℕ → ℕ → ℕ → Thread
elect round tid r zero = ret tt
elect round tid r (suc n) = do round tid r; elect round tid (r + 1) n

-- The threads that `main` creates have the numbers from 1 on.
unfoldable pub rounds_of : ℕ → ℕ → ℕ → ℕ
rounds_of nbthreads runs i = if ltb i nbthreads then runs else 0

module _ (round : ℕ → ℕ → Thread) (nbthreads runs : ℕ) where
  unfoldable pub begin : System Action Answer Shared (Unit {0})
  begin = record {
    shared = record { leader = λ r. 0; nb_leaders = λ r. 0; holder = none };
    threads = λ i. elect round (i + 1) 0 (rounds_of nbthreads runs i);
  }

  unfoldable pub after_turns : List ℕ → System Action Answer Shared (Unit {0})
  after_turns is = interleave exec is begin

-- `main` after the threads are joined, from round `r` on: whether it prints "Looks correct to me!"
unfoldable pub looks_correct : ℕ → ℕ → (ℕ → ℕ) → Bool
looks_correct zero r nb_leaders = true
looks_correct (suc n) r nb_leaders =
    let next = looks_correct n (r + 1) nb_leaders in if nb_leaders r == 1 then next else false

-- `main` of election1.c to election4.c, with the order of the turns
abbrev pub election1 : ℕ → ℕ → List ℕ → Bool
election1 nbthreads runs is =
    looks_correct runs 0 (after_turns round_plain nbthreads runs is).shared.nb_leaders

abbrev pub election2 : ℕ → ℕ → List ℕ → Bool
election2 nbthreads runs is =
    looks_correct runs 0 (after_turns round_locked nbthreads runs is).shared.nb_leaders

abbrev pub election3 : ℕ → ℕ → List ℕ → Bool
election3 nbthreads runs is =
    looks_correct runs 0 (after_turns round_atomic nbthreads runs is).shared.nb_leaders

abbrev pub election4 : ℕ → ℕ → List ℕ → Bool
election4 nbthreads runs is =
    looks_correct runs 0 (after_turns round_exchange nbthreads runs is).shared.nb_leaders
