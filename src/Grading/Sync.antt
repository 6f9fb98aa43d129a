-- ===== src/Grading/Sync.antt =====
-- `Sync` of grading/grading.cpp with its `Latch` (grading/common.hpp): how the master and the workers
-- agree on the start and the end of a run. Each access to an atomic is one action; so are the start
-- and the end of the measured time, and the latch under its lock.
pub mod Round
use performant_transactional.Base.{
  ℕ, zero, suc, ◌+◌, ◌%◌, ◌^◌, Bool, true, false, ◌||◌, Option, none, some, List, [], ◌∷◌, ◌==◌,
  if◌then◌else◌,
}
use performant_transactional.Process.{Prog, ret, act, ◌>>=◌, ◌>>◌, run}
use performant_transactional.Grading.Chrono as Chrono
use performant_transactional.Grading.Chrono.{Timespec}

pub data Status : Type 0 where
  waiting running aborting done failing quitting : Status

-- The atomics of `Sync`, its clock and latch, and the times that the clock is going to tell. Messages
-- are numbers.
pub record Shared : Type 0 where
  pub nbready : ℕ
  pub status : Status
  pub errmsg : Option ℕ
  pub runtime : Chrono.Chrono
  pub raised : Bool
  pub times : List (Option Timespec)

-- `unsigned int`
abbrev pub ready_mod : ℕ
ready_mod = 2 ^ 32

pub data Action : Type 0 where
  load_status load_errmsg add_ready start_runtime stop_runtime load_runtime raise_latch wait_latch :
      Action
  store_status : Status → Action
  store_errmsg : ℕ → Action
  store_ready : ℕ → Action

abbrev pub Answer : Action → Type 0
Answer load_status = Status
Answer load_errmsg = Option ℕ
Answer add_ready = ℕ
Answer start_runtime = Unit {0}
Answer stop_runtime = Unit {0}
Answer load_runtime = Chrono.Chrono
Answer raise_latch = Unit {0}
Answer wait_latch = Bool
Answer (store_status s) = Unit {0}
Answer (store_errmsg e) = Unit {0}
Answer (store_ready n) = Unit {0}

abbrev pub now : List (Option Timespec) → Option Timespec
now [] = none
now (t ∷ ts) = t

abbrev pub later : List (Option Timespec) → List (Option Timespec)
later [] = []
later (t ∷ ts) = ts

-- `wait_latch` answers whether the latch is raised when the wait ends, and resets it if so.
unfoldable pub exec : (a : Action) → Shared → Answer a × Shared
exec load_status s = (s.status, s)
exec load_errmsg s = (s.errmsg, s)
exec add_ready s = (s.nbready, record s { nbready = (s.nbready + 1) % ready_mod })
exec start_runtime s =
    (tt, record s { runtime = Chrono.start (now s.times) s.runtime; times = later s.times })
exec stop_runtime s =
    (tt, record s { runtime = Chrono.stop (now s.times) s.runtime; times = later s.times })
exec load_runtime s = (s.runtime, s)
exec raise_latch s = (tt, record s { raised = true })
exec wait_latch s = (s.raised, record s { raised = false })
exec (store_status st) s = (tt, record s { status = st })
exec (store_errmsg e) s = (tt, record s { errmsg = some e })
exec (store_ready n) s = (tt, record s { nbready = n })

abbrev pub Task : Type 0 → Type 0
Task A = Prog Action Answer A

abbrev pub ask : (a : Action) → Task (Answer a)
ask a = act a ret

-- The constructor
unfoldable pub new_sync : List (Option Timespec) → Shared
new_sync times = record {
  nbready = 0;
  status = done;
  errmsg = none;
  runtime = record { total = 0; local = 0 };
  raised = false;
  times = times;
}

unfoldable pub master_notify : Task (Unit {0})
master_notify = do ask (store_status waiting); ask start_runtime

unfoldable pub master_join : Task (Unit {0})
master_join = ask (store_status quitting)

pub data Verdict : Type 0 where
  success : Chrono.Chrono → Verdict
  failed : Option ℕ → Verdict
  overrun unreachable : Verdict

unfoldable pub verdict : Status → Task Verdict
verdict done = do c ← ask load_runtime; ret (success c)
verdict failing = do e ← ask load_errmsg; ret (failed e)
verdict waiting = ret unreachable
verdict running = ret unreachable
verdict aborting = ret unreachable
verdict quitting = ret unreachable

unfoldable pub master_wait : Task Verdict
master_wait = do
  raised ← ask wait_latch
  if raised then (do st ← ask load_status; verdict st) else ret overrun

-- The spin loops run on fuel, and answer `none` when it is used up.
unfoldable pub await_wait : ℕ → Task (Option Bool)
await_wait zero = ret none
await_wait (suc fuel) = do
  res ← ask load_status
  let again = await_wait fuel
  elim res [ waiting ↦ ret (some true) | quitting ↦ ret (some false) | _ ↦ again ]

unfoldable pub await_run : ℕ → Task (Option Bool)
await_run zero = ret none
await_run (suc fuel) = do
  res ← ask load_status
  let again = await_run fuel
  elim res [ running ↦ ret (some true) | aborting ↦ ret (some true) | _ ↦ again ]

-- The latest worker switches to `running`; the others wait for it.
unfoldable pub enter : ℕ → ℕ → Task (Option Bool)
enter fuel nbworkers = do
  res ← ask add_ready
  if (res + 1) % ready_mod == nbworkers
      then (do ask (store_ready 0); ask (store_status running); ret (some true))
      else await_run fuel

unfoldable pub worker_wait : ℕ → ℕ → Task (Option Bool)
worker_wait fuel nbworkers = do
  proceed ← await_wait fuel
  elim proceed [
    | none ↦ ret none
    | some false ↦ ret (some false)
    | some true ↦ enter fuel nbworkers
  ]

unfoldable pub note_error : Option ℕ → Task (Unit {0})
note_error none = ret tt
note_error (some e) = do ask (store_errmsg e); ask (store_status aborting)

unfoldable pub final_status : Status → Status
final_status aborting = failing
final_status waiting = done
final_status running = done
final_status done = done
final_status failing = done
final_status quitting = done

-- The end of `worker_notify`, where `res` workers were done before: the latest worker ends the run.
unfoldable pub leave : ℕ → ℕ → Task (Unit {0})
leave nbworkers res =
    if (res + 1) % ready_mod == nbworkers
    then (do
      ask (store_ready 0)
      st ← ask load_status
      ask (store_status (final_status st))
      ask stop_runtime
      ask raise_latch)
    else ret tt

unfoldable pub worker_notify : ℕ → Option ℕ → Task (Unit {0})
worker_notify nbworkers error = do note_error error; res ← ask add_ready; leave nbworkers res
