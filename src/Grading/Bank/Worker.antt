-- ===== src/Grading/Bank/Worker.antt =====
-- `run` of `WorkloadBank` (grading/workload.hpp): what one worker asks for, by the choices that it draws.
use performant_transactional.Base.{
  ℕ, Bool, true, false, Option, none, some, List, [], ◌∷◌, if◌then◌else◌,
}
use performant_transactional.Process.{Prog, ret, act, ◌>>=◌, ◌>>◌}

-- The transactions that a worker asks for, each run by `transactional`.
pub data Request : Type 0 where
  long_request : ℕ → Request
  alloc_request : ℕ → Request
  short_request : ℕ → ℕ → Request

abbrev pub Reply : Request → Type 0
Reply (long_request count) = Bool × ℕ
Reply (alloc_request trigger) = Unit {0}
Reply (short_request send_id recv_id) = Bool

-- One round: the random choice, with the trigger or the pairs of accounts that are drawn.
pub data Choice : Type 0 where
  long : Choice
  alloc : ℕ → Choice
  short : List (ℕ × ℕ) → Choice

-- The loop over `short_tx`: whether one of the draws was satisfying.
unfoldable pub short_loop : List (ℕ × ℕ) → Prog Request Reply Bool
short_loop [] = ret false
short_loop ((send_id, recv_id) ∷ draws) = do
  satisfied ← act (short_request send_id recv_id) ret
  let again = short_loop draws
  if satisfied then ret true else again

-- `some false` is "Violated isolation or atomicity"; `none`: a loop over `short_tx` never ends.
unfoldable pub run_worker : List Choice → ℕ → Prog Request Reply (Option Bool)
run_worker [] count = do (correct, dummy) ← act (long_request 0) ret; ret (some correct)
run_worker (long ∷ cs) count = do
  (correct, count') ← act (long_request count) ret
  let next = run_worker cs count'
  if correct then next else ret (some false)
run_worker (alloc trigger ∷ cs) count = do act (alloc_request trigger) ret; run_worker cs count
run_worker (short draws ∷ cs) count = do
  ended ← short_loop draws
  let next = run_worker cs count
  if ended then next else ret none
