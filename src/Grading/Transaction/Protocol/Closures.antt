-- ===== src/Grading/Transaction/Protocol/Closures.antt =====
-- A closure (grading/transactional.hpp) under the monitor of its library.
use performant_transactional.Base.{
  ℕ, Bool, true, false, Option, none, some, ◌≡◌, refl, ◌==◌, ==_iff,
}
use performant_transactional.Process.{ret, act}
use performant_transactional.Grading.Shared.{
  transaction_retry, transaction_alloc, read, write, alloc, free, Outcome, returned, thrown,
}
use performant_transactional.Grading.Transaction.{
  AllocAnswer, success, nomem, abort, Library, Closure, access, assign, Ran, after_read,
  after_access, after_alloc, run_closure,
}
use performant_transactional.Grading.Transaction.Protocol.{
  Monitor, closed, inside, ends, uses, see_read, see_access, see_alloc, monitored,
}

same_tx : (tx : ℕ) → tx == tx ≡ true
same_tx tx = (==_iff tx tx).1 refl

uses-true : (n tx : ℕ) → uses tx true (inside n tx) ≡ inside n tx
uses-true n tx = rw (same_tx tx) refl

pub ends-inside : (n tx : ℕ) (b : Bool) → ends tx b (inside n tx) ≡ closed n b
ends-inside n tx b = rw (same_tx tx) refl

-- The monitor when the closure is left.
unfoldable pub Left : {A : Type 0} → ℕ → ℕ → Outcome A → Bool → Monitor → Type 0
Left n tx (returned x) false m = m ≡ inside n tx
Left n tx (thrown transaction_alloc) false m = m ≡ inside n tx
Left n tx (thrown transaction_retry) true m = m ≡ closed n false
Left n tx (returned x) true m = ⊥
Left n tx (thrown transaction_alloc) true m = ⊥
Left n tx (thrown transaction_retry) false m = ⊥

abbrev pub IsLeft : {C S A : Type 0} → ℕ → ℕ → Ran C A × (Monitor × S) → Type 0
IsLeft n tx (r, (m, s)) = Left n tx r.outcome r.aborted m

module _ {C S A : Type 0} (n : ℕ) where
  read-IsLeft :
      (tx : ℕ) (c : C) (next : ℕ → Monitor × S → Ran C A × (Monitor × S)) (p : Option ℕ × S)
      → ((v : ℕ) (s : S) → IsLeft n tx (next v (inside n tx, s)))
      → IsLeft n tx (after_read c next (see_read tx (inside n tx) p))
  unfolding Left after_read
  read-IsLeft tx c next (some v, s) h = rw (same_tx tx) (h v s)
  read-IsLeft tx c next (none, s) h = ends-inside n tx false

  access-IsLeft :
      (tx : ℕ) (c : C) (next : Monitor × S → Ran C A × (Monitor × S)) (p : Bool × S)
      → ((s : S) → IsLeft n tx (next (inside n tx, s)))
      → IsLeft n tx (after_access c next (see_access tx (inside n tx) p))
  unfolding Left after_access
  access-IsLeft tx c next (true, s) h = rw (same_tx tx) (h s)
  access-IsLeft tx c next (false, s) h = ends-inside n tx false

  alloc-IsLeft :
      (tx : ℕ) (c : C) (next : ℕ → Monitor × S → Ran C A × (Monitor × S)) (p : AllocAnswer × S)
      → ((v : ℕ) (s : S) → IsLeft n tx (next v (inside n tx, s)))
      → IsLeft n tx (after_alloc c next (see_alloc tx (inside n tx) p))
  unfolding Left after_alloc
  alloc-IsLeft tx c next (success p, s) h = rw (same_tx tx) (h p s)
  alloc-IsLeft tx c next (nomem, s) h = uses-true n tx
  alloc-IsLeft tx c next (abort, s) h = ends-inside n tx false

pub run_closure-IsLeft :
    {C S A : Type 0} (L : Library S) (n : ℕ) (func : Closure C A) (tx : ℕ) (c : C) (s : S)
    → IsLeft n tx (run_closure (monitored L) func tx c (inside n tx, s))
unfolding run_closure Left
run_closure-IsLeft L n (ret x) tx c s = refl
run_closure-IsLeft L n (act (access (read a)) k) tx c s =
    read-IsLeft n tx c (λ v t. run_closure (monitored L) (k v) tx c t) (L.tm_read tx a s)
      (λ v t. run_closure-IsLeft L n (k v) tx c t)
run_closure-IsLeft L n (act (access (write a v)) k) tx c s =
    access-IsLeft n tx c (λ t. run_closure (monitored L) (k tt) tx c t) (L.tm_write tx a v s)
      (λ t. run_closure-IsLeft L n (k tt) tx c t)
run_closure-IsLeft L n (act (access (alloc size)) k) tx c s =
    alloc-IsLeft n tx c (λ p t. run_closure (monitored L) (k p) tx c t) (L.tm_alloc tx size s)
      (λ p t. run_closure-IsLeft L n (k p) tx c t)
run_closure-IsLeft L n (act (access (free a)) k) tx c s =
    access-IsLeft n tx c (λ t. run_closure (monitored L) (k tt) tx c t) (L.tm_free tx a s)
      (λ t. run_closure-IsLeft L n (k tt) tx c t)
run_closure-IsLeft L n (act (assign d) k) tx c s = run_closure-IsLeft L n (k tt) tx d s
