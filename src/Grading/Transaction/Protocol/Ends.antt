-- ===== src/Grading/Transaction/Protocol/Ends.antt =====
-- What the monitor of a library finds of `transactional` (grading/transactional.hpp).
use performant_transactional.Base.{
  ℕ, ◌+◌, arith, zero, suc, Bool, true, false, Option, none, some, ◌≡◌, refl,
}
use performant_transactional.Grading.Shared.{
  transaction_retry, transaction_alloc, Outcome, returned, thrown,
}
use performant_transactional.Grading.Transaction.{
  Library, Ending, finished, retried, out_of_memory, begin_failed, terminated, Closure, Ran,
  after_attempt, after_end, run_closure, destruct, finish, begun, attempt, transactional,
}
use performant_transactional.Grading.Transaction.Protocol.{
  Monitor, closed, inside, broken, see_begin, see_end, monitored, has_committed, Tried, IsOver,
}
use performant_transactional.Grading.Transaction.Protocol.Closures.{
  Left, IsLeft, ends-inside, run_closure-IsLeft,
}
use performant_transactional.Grading.Transaction.Protocol.Erasure.{erase, transactional-erase}

module _ {S : Type 0} (n : ℕ) where
  end-committed :
      {A : Type 0} (tx : ℕ) (x : A) (p : Bool × S)
      → let (e, (m, t)) = after_end (returned x) (see_end tx (inside n tx) p) in
        m ≡ closed n (has_committed (some e))
  unfolding has_committed
  end-committed tx x (true, s) = ends-inside n tx true
  end-committed tx x (false, s) = ends-inside n tx false

  end-no_memory :
      (A : Type 0) (tx : ℕ) (p : Bool × S)
      → let (e, (m, t)) =
          after_end {A = A} (thrown transaction_alloc) (see_end tx (inside n tx) p) in
        m ≡ closed n (has_committed (some e))
  unfolding has_committed
  end-no_memory A tx (true, s) = ends-inside n tx true
  end-no_memory A tx (false, s) = ends-inside n tx false

  destruct-has_committed :
      {A : Type 0} (L : Library S) (outcome : Outcome A) (aborted : Bool) (tx : ℕ) (m : Monitor)
      (s : S)
      → Left n tx outcome aborted m
      → let (e, (m', t)) = destruct (monitored L) outcome aborted tx (m, s) in
        m' ≡ closed n (has_committed (some e))
  unfolding destruct Left has_committed
  destruct-has_committed L (returned x) false tx m s h = rw h (end-committed tx x (L.tm_end tx s))
  destruct-has_committed {A} L (thrown transaction_alloc) false tx m s h =
      rw h (end-no_memory A tx (L.tm_end tx s))
  destruct-has_committed L (thrown transaction_retry) true tx m s h = h
  destruct-has_committed L (returned x) true tx m s h = absurd h
  destruct-has_committed L (thrown transaction_alloc) true tx m s h = absurd h
  destruct-has_committed L (thrown transaction_retry) false tx m s h = absurd h

-- The monitor after the attempt that makes `n` transactions.
abbrev Agrees : {C S A : Type 0} → ℕ → (Ending A × C) × (Monitor × S) → Type 0
Agrees n ((e, c), (m, s)) = m ≡ closed n (has_committed (some e))

finish-Agrees :
    {C S A : Type 0} (L : Library S) (n tx : ℕ) (o : Ran C A × (Monitor × S))
    → IsLeft n tx o
    → Agrees n (finish (monitored L) tx o)
finish-Agrees L n tx (r, (m, s)) h = destruct-has_committed n L r.outcome r.aborted tx m s h

begun-Agrees :
    {C S A : Type 0} (L : Library S) (func : C → Closure C A) (c : C) (k : ℕ) (b : Bool)
    (p : Option ℕ × S)
    → Agrees (k + 1) (begun (monitored L) func c (see_begin (closed k b) p))
unfolding has_committed
begun-Agrees L func c k b (none, s) = refl
begun-Agrees L func c k b (some tx, s) =
    finish-Agrees L (k + 1) tx (run_closure (monitored L) (func c) tx c (inside (k + 1) tx, s))
      (run_closure-IsLeft L (k + 1) (func c) tx c s)

first_try : {A : Type 0} (fuel k : ℕ) (e : Ending A) → Tried (suc fuel) k (some e) (k + 1)
unfolding Tried
first_try fuel k e = (omega arith, omega arith)

-- One attempt more, and one transaction more.
Tried-suc :
    {A : Type 0} (fuel k n : ℕ) (e : Option (Ending A))
    → Tried fuel (k + 1) e n
    → Tried (suc fuel) k e n
unfolding Tried
Tried-suc fuel k n none h = omega arith
Tried-suc fuel k n (some e) h = (omega arith, omega arith)

IsOver-suc :
    {A : Type 0} (fuel k : ℕ) (e : Option (Ending A)) (m : Monitor)
    → IsOver fuel (k + 1) e m
    → IsOver (suc fuel) k e m
unfolding IsOver
IsOver-suc fuel k e (closed n b) h = (h.0, Tried-suc fuel k n e h.1)
IsOver-suc fuel k e (inside n tx) h = h
IsOver-suc fuel k e broken h = h

after_attempt-IsOver :
    {C S A : Type 0} (fuel k : ℕ) (next : C → Monitor × S → (Option (Ending A) × C) × (Monitor × S))
    (o : (Ending A × C) × (Monitor × S))
    → Agrees (k + 1) o
    → ((c : C) (s : S)
        → let u = next c (closed (k + 1) false, s) in IsOver fuel (k + 1) u.0.0 u.1.0)
    → let u = after_attempt next o in IsOver (suc fuel) k u.0.0 u.1.0
unfolding after_attempt has_committed IsOver
after_attempt-IsOver fuel k next ((finished x, c), (m, s)) e h =
    rw e (refl, first_try fuel k (finished x))
after_attempt-IsOver fuel k next ((retried, c), (m, s)) e h =
    rw e (let u = next c (closed (k + 1) false, s) in IsOver-suc fuel k u.0.0 u.1.0 (h c s))
after_attempt-IsOver {A = A} fuel k next ((out_of_memory, c), (m, s)) e h =
    rw e (refl, first_try {A = A} fuel k out_of_memory)
after_attempt-IsOver {A = A} fuel k next ((begin_failed, c), (m, s)) e h =
    rw e (refl, first_try {A = A} fuel k begin_failed)
after_attempt-IsOver {A = A} fuel k next ((terminated, c), (m, s)) e h =
    rw e (refl, first_try {A = A} fuel k terminated)

transactional-IsOver :
    {C S A : Type 0} (L : Library S) (fuel k : ℕ) (ro : Bool) (func : C → Closure C A) (c : C)
    (s : S)
    → let o = transactional (monitored L) fuel ro func c (closed k false, s) in
      IsOver fuel k o.0.0 o.1.0
unfolding transactional attempt has_committed IsOver Tried
transactional-IsOver L zero k ro func c s = (refl, omega arith)
transactional-IsOver L (suc fuel) k ro func c s =
    after_attempt-IsOver fuel k (transactional (monitored L) fuel ro func)
      (begun (monitored L) func c (see_begin (closed k false) (L.tm_begin ro s)))
      (begun-Agrees L func c k false (L.tm_begin ro s))
      (λ c' s'. transactional-IsOver L fuel (k + 1) ro func c' s')

-- Over any library, for any closure, which may assign to the variables that it captures, and for any number
-- of attempts that there is fuel for: a monitor that sees the calls of the library, and changes
-- nothing of what `transactional` answers and leaves, finds that each transaction that began is used under its
-- own handle until the library aborts it or until its one tm_end, and never afterwards; when `transactional` is left, no
-- transaction is open, and the last one committed exactly when the closure's value is returned or
-- there was no memory. It was left after one attempt at least, or else after all attempts that
-- there is fuel for, the last of which did not commit either.
pub transactional-monitored :
    {C S A : Type 0} (L : Library S) (fuel : ℕ) (ro : Bool) (func : C → Closure C A) (c : C) (s : S)
    → let o = transactional (monitored L) fuel ro func c (closed 0 false, s) in
      (erase o ≡ transactional L fuel ro func c s) × IsOver fuel 0 o.0.0 o.1.0
transactional-monitored L fuel ro func c s = (
  transactional-erase L fuel ro func c (closed 0 false) s,
  transactional-IsOver L fuel 0 ro func c s,
)
