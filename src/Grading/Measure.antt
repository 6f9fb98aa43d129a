-- ===== src/Grading/Measure.antt =====
-- The master of `measure` (grading/grading.cpp): the runs that it starts and waits for, and what it makes
-- of them. Messages are numbers; the timeouts of the waits are part of the latch's answer.
pub mod Median
pub mod Rounds
pub mod Results
mod Examples
use performant_transactional.Base.{
  ℕ, zero, suc, ◌+◌, ◌/◌, ◌∷◌, [], ◌++◌, Bool, true, false, Option, none, some, List, leb,
  if◌then◌else◌, length,
}
use performant_transactional.Process.{Prog, ret, act, ◌>>=◌, ◌>>◌}
use performant_transactional.Grading.Chrono as Chrono
use performant_transactional.Grading.Sync.{
  Shared, Action, load_status, load_errmsg, add_ready, start_runtime, stop_runtime, load_runtime,
  raise_latch, wait_latch, store_status, store_errmsg, store_ready, exec, Task, Verdict, success,
  failed, overrun, unreachable, master_notify, master_wait, master_join,
}

-- What `measure` returns: the error, time_init, times[posmedian] (none if it was not assigned),
-- time_chck. Or else an exception went through it.
pub data Measured : Type 0 where
  measured : Option ℕ → ℕ → Option ℕ → ℕ → Measured
  thrown : Measured

abbrev pub nth : List ℕ → ℕ → Option ℕ
nth [] i = none
nth (x ∷ xs) zero = some x
nth (x ∷ xs) (suc i) = nth xs i

-- `nth_element` puts the element that a sorted array has at `posmedian` there.
unfoldable pub insert : ℕ → List ℕ → List ℕ
insert x [] = x ∷ []
insert x (y ∷ ys) = let rest = insert x ys in if leb x y then x ∷ y ∷ ys else y ∷ rest

unfoldable pub sort : List ℕ → List ℕ
sort [] = []
sort (x ∷ xs) = insert x (sort xs)

unfoldable pub median : ℕ → List ℕ → Option ℕ
median nbrepeats times = nth (sort times) (nbrepeats / 2)

-- The code behind `join:`
unfoldable pub join : Measured → Task Measured
join m = do master_join; ret m

-- The start of a run and the wait for its end, and what follows it.
abbrev pub follow : (ℕ → Task Measured) → (Option ℕ → Task Measured) → Verdict → Task Measured
follow onward stop (success c) = onward c.total
follow onward stop (failed e) = stop e
follow onward stop overrun = ret thrown
follow onward stop unreachable = ret thrown

unfoldable pub one_run : (ℕ → Task Measured) → (Option ℕ → Task Measured) → Task Measured
one_run onward stop = do master_notify; v ← master_wait; follow onward stop v

-- The correctness check
unfoldable pub check_run : ℕ → ℕ → List ℕ → Task Measured
check_run nbrepeats time_init times =
    one_run (λ t. join (measured none time_init (median nbrepeats times) t))
      (λ e. join (measured e time_init (median nbrepeats times) Chrono.invalid_tick))

-- The measurements: `n` of them are left, and `times` were taken.
unfoldable pub repeats : ℕ → ℕ → ℕ → List ℕ → Task Measured
repeats zero nbrepeats time_init times = check_run nbrepeats time_init times
repeats (suc n) nbrepeats time_init times =
    one_run (λ t. repeats n nbrepeats time_init (times ++ (t ∷ [])))
      (λ e. join (measured e time_init (nth times (nbrepeats / 2)) Chrono.invalid_tick))

unfoldable pub measure : ℕ → Task Measured
measure nbrepeats =
    one_run (λ t. repeats nbrepeats nbrepeats t [])
      (λ e. join (measured e Chrono.invalid_tick none Chrono.invalid_tick))

-- The master while the workers make their run `k` whenever it waits for the `k`-th time.
unfoldable pub is_wait : Action → Bool
is_wait load_status = false
is_wait load_errmsg = false
is_wait add_ready = false
is_wait start_runtime = false
is_wait stop_runtime = false
is_wait load_runtime = false
is_wait raise_latch = false
is_wait wait_latch = true
is_wait (store_status s) = false
is_wait (store_errmsg e) = false
is_wait (store_ready n) = false

unfoldable pub serve : {A : Type 0} → (ℕ → Shared → Shared) → ℕ → Task A → Shared → A × Shared
serve workers k (ret a) s = (a, s)
serve workers k (act a f) s =
    let (r, t) = exec a (if is_wait a then workers k s else s) in
    serve workers (if is_wait a then k + 1 else k) (f r) t
