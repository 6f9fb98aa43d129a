-- ===== src/Grading/Transaction.antt =====
-- The classes `TransactionalMemory` and `Transaction`, and `transactional`
-- (grading/transactional.hpp), over the library that they load.
pub mod Protocol
use performant_transactional.Base.{
  ℕ, zero, suc, Bool, true, false, Option, none, some, List, [], ◌∷◌, ◌==◌, if◌then◌else◌,
}
use performant_transactional.Process.{Prog, ret, act, update}
use performant_transactional.Grading.Shared.{
  Exception, transaction_retry, transaction_alloc, Op, Ans, Tx, read, write, alloc, free, World,
  first, rest, zero_words, Outcome, returned, thrown, apply,
}

-- `STM::Alloc`
pub data AllocAnswer : Type 0 where
  success : ℕ → AllocAnswer
  nomem abort : AllocAnswer

-- The loaded library on the words of one shared region. Its state `S` holds the other threads too.
pub record Library (S : Type 0) : Type 0 where
  pub tm_begin : Bool → S → Option ℕ × S  -- none: `invalid_tx`
  pub tm_end : ℕ → S → Bool × S
  pub tm_read : ℕ → ℕ → S → Option ℕ × S
  pub tm_write : ℕ → ℕ → ℕ → S → Bool × S
  pub tm_alloc : ℕ → ℕ → S → AllocAnswer × S
  pub tm_free : ℕ → ℕ → S → Bool × S

-- How an attempt ends. An exception of the destructor while another one unwinds the stack ends the
-- process.
pub data Ending (A : Type 0) : Type 0 where
  finished : A → Ending A
  retried out_of_memory begin_failed terminated : Ending A

-- A closure captures variables by reference, with the values `C`: it works on the shared region, and
-- assigns to its variables. What they hold when an attempt ends is there for the next one.
pub data Step (C : Type 0) : Type 0 where
  access : Op → Step C
  assign : C → Step C

abbrev pub StepAns : {C : Type 0} → Step C → Type 0
StepAns (access a) = Ans a
StepAns (assign c) = Unit {0}

abbrev pub Closure : Type 0 → Type 0 → Type 0
Closure C A = Prog (Step C) StepAns A

-- After the closure: its outcome, the field `aborted` of the transaction, the captured variables.
pub record Ran (C A : Type 0) : Type 0 where
  pub outcome : Outcome A
  pub aborted : Bool
  pub captured : C

module _ {C S A : Type 0} where
  -- `throw Exception::TransactionRetry{}` after `aborted = true`
  abbrev pub abandon : C → S → Ran C A × S
  abandon c s = (record { outcome = thrown transaction_retry; aborted = true; captured = c }, s)

  -- `read`, `write` and `free` throw where the library answers that the transaction cannot go on.
  unfoldable pub after_read : C → (ℕ → S → Ran C A × S) → Option ℕ × S → Ran C A × S
  after_read c next (some v, s) = next v s
  after_read c next (none, s) = abandon c s

  unfoldable pub after_access : C → (S → Ran C A × S) → Bool × S → Ran C A × S
  after_access c next (true, s) = next s
  after_access c next (false, s) = abandon c s

  unfoldable pub after_alloc : C → (ℕ → S → Ran C A × S) → AllocAnswer × S → Ran C A × S
  after_alloc c next (success p, s) = next p s
  after_alloc c next (nomem, s) =
      (record { outcome = thrown transaction_alloc; aborted = false; captured = c }, s)
  after_alloc c next (abort, s) = abandon c s

  -- What `transactional` does after an attempt; `next` is its next turn.
  unfoldable pub after_attempt :
      (C → S → (Option (Ending A) × C) × S) → (Ending A × C) × S → (Option (Ending A) × C) × S
  after_attempt next ((finished x, c), s) = ((some (finished x), c), s)
  after_attempt next ((retried, c), s) = next c s
  after_attempt next ((out_of_memory, c), s) = ((some out_of_memory, c), s)
  after_attempt next ((begin_failed, c), s) = ((some begin_failed, c), s)
  after_attempt next ((terminated, c), s) = ((some terminated, c), s)

module _ {A : Type 0} where
  abbrev pub ending_of : Outcome A → Ending A
  ending_of (returned x) = finished x
  ending_of (thrown transaction_retry) = retried
  ending_of (thrown transaction_alloc) = out_of_memory

  -- The destructor could not end the transaction.
  abbrev pub failing_end : Outcome A → Ending A
  failing_end (returned x) = retried
  failing_end (thrown e) = terminated

  -- `~Transaction` by what tm_end answers
  abbrev pub after_end : {S : Type 0} → Outcome A → Bool × S → Ending A × S
  after_end outcome (true, s) = (ending_of outcome, s)
  after_end outcome (false, s) = (failing_end outcome, s)

module _ {S : Type 0} (L : Library S) where
  open L use {tm_begin, tm_end, tm_read, tm_write, tm_alloc, tm_free}

  -- The closure on the transaction `tx`.
  unfoldable pub run_closure : {C A : Type 0} → Closure C A → ℕ → C → S → Ran C A × S
  run_closure (ret x) tx c s = (record { outcome = returned x; aborted = false; captured = c }, s)
  run_closure (act (access (read a)) k) tx c s =
      after_read c (λ v t. run_closure (k v) tx c t) (tm_read tx a s)
  run_closure (act (access (write a v)) k) tx c s =
      after_access c (λ t. run_closure (k tt) tx c t) (tm_write tx a v s)
  run_closure (act (access (alloc n)) k) tx c s =
      after_alloc c (λ p t. run_closure (k p) tx c t) (tm_alloc tx n s)
  run_closure (act (access (free a)) k) tx c s =
      after_access c (λ t. run_closure (k tt) tx c t) (tm_free tx a s)
  run_closure (act (assign d) k) tx c s = run_closure (k tt) tx d s

  -- `~Transaction` after the closure
  unfoldable pub destruct : {A : Type 0} → Outcome A → Bool → ℕ → S → Ending A × S
  destruct outcome true tx s = (ending_of outcome, s)
  destruct outcome false tx s = after_end outcome (tm_end tx s)

  abbrev pub finish : {C A : Type 0} → ℕ → Ran C A × S → (Ending A × C) × S
  finish tx (r, s) = let (e, t) = destruct r.outcome r.aborted tx s in ((e, r.captured), t)

  abbrev pub begun : {C A : Type 0} → (C → Closure C A) → C → Option ℕ × S → (Ending A × C) × S
  begun func c (none, s) = ((begin_failed, c), s)
  begun func c (some tx, s) = finish tx (run_closure (func c) tx c s)

  -- One turn of the loop of `transactional`.
  unfoldable pub attempt : {C A : Type 0} → Bool → (C → Closure C A) → C → S → (Ending A × C) × S
  attempt ro func c s = begun func c (tm_begin ro s)

  -- `none`: out of fuel.
  unfoldable pub transactional :
      {C A : Type 0} → ℕ → Bool → (C → Closure C A) → C → S → (Option (Ending A) × C) × S
  transactional zero ro func c s = ((none, c), s)
  transactional (suc fuel) ro func c s =
      after_attempt (transactional fuel ro func) (attempt ro func c s)
