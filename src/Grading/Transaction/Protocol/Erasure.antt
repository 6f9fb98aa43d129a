-- ===== src/Grading/Transaction/Protocol/Erasure.antt =====
-- The monitor of a library and `transactional` (grading/transactional.hpp) without it.
use performant_transactional.Base.{
  ℕ, zero, suc, Bool, true, false, Option, none, some, ◌≡◌, refl, ap, ◌∙◌,
}
use performant_transactional.Process.{ret, act}
use performant_transactional.Grading.Shared.{read, write, alloc, free, Outcome}
use performant_transactional.Grading.Transaction.{
  AllocAnswer, success, nomem, abort, Library, Ending, finished, retried, out_of_memory,
  begin_failed, terminated, Closure, access, assign, Ran, after_read, after_access, after_alloc,
  after_attempt, after_end, run_closure, destruct, finish, begun, attempt, transactional,
}
use performant_transactional.Grading.Transaction.Protocol.{
  Monitor, begins, see_begin, see_end, see_read, see_access, see_alloc, monitored,
}

-- Without the monitor
abbrev pub erase : {X S : Type 0} → X × (Monitor × S) → X × S
erase (x, (m, s)) = (x, s)

module _ {C S A : Type 0} (tx : ℕ) (m : Monitor) (c : C) where
  read-erase :
      (next : ℕ → Monitor × S → Ran C A × (Monitor × S)) (next' : ℕ → S → Ran C A × S)
      (p : Option ℕ × S)
      → ((v : ℕ) (m : Monitor) (s : S) → erase (next v (m, s)) ≡ next' v s)
      → erase (after_read c next (see_read tx m p)) ≡ after_read c next' p
  unfolding after_read
  read-erase next next' (some v, s) h = h v _ s
  read-erase next next' (none, s) h = refl

  access-erase :
      (next : Monitor × S → Ran C A × (Monitor × S)) (next' : S → Ran C A × S) (p : Bool × S)
      → ((m : Monitor) (s : S) → erase (next (m, s)) ≡ next' s)
      → erase (after_access c next (see_access tx m p)) ≡ after_access c next' p
  unfolding after_access
  access-erase next next' (true, s) h = h _ s
  access-erase next next' (false, s) h = refl

  alloc-erase :
      (next : ℕ → Monitor × S → Ran C A × (Monitor × S)) (next' : ℕ → S → Ran C A × S)
      (p : AllocAnswer × S)
      → ((v : ℕ) (m : Monitor) (s : S) → erase (next v (m, s)) ≡ next' v s)
      → erase (after_alloc c next (see_alloc tx m p)) ≡ after_alloc c next' p
  unfolding after_alloc
  alloc-erase next next' (success v, s) h = h v _ s
  alloc-erase next next' (nomem, s) h = refl
  alloc-erase next next' (abort, s) h = refl

module _ {S : Type 0} (L : Library S) where
  run_closure-erase :
      {C A : Type 0} (func : Closure C A) (tx : ℕ) (c : C) (m : Monitor) (s : S)
      → erase (run_closure (monitored L) func tx c (m, s)) ≡ run_closure L func tx c s
  unfolding run_closure
  run_closure-erase (ret x) tx c m s = refl
  run_closure-erase (act (access (read a)) k) tx c m s =
      read-erase tx m c (λ v t. run_closure (monitored L) (k v) tx c t)
        (λ v t. run_closure L (k v) tx c t) (L.tm_read tx a s)
        (λ v m' t. run_closure-erase (k v) tx c m' t)
  run_closure-erase (act (access (write a v)) k) tx c m s =
      access-erase tx m c (λ t. run_closure (monitored L) (k tt) tx c t)
        (λ t. run_closure L (k tt) tx c t) (L.tm_write tx a v s)
        (λ m' t. run_closure-erase (k tt) tx c m' t)
  run_closure-erase (act (access (alloc n)) k) tx c m s =
      alloc-erase tx m c (λ p t. run_closure (monitored L) (k p) tx c t)
        (λ p t. run_closure L (k p) tx c t) (L.tm_alloc tx n s)
        (λ p m' t. run_closure-erase (k p) tx c m' t)
  run_closure-erase (act (access (free a)) k) tx c m s =
      access-erase tx m c (λ t. run_closure (monitored L) (k tt) tx c t)
        (λ t. run_closure L (k tt) tx c t) (L.tm_free tx a s)
        (λ m' t. run_closure-erase (k tt) tx c m' t)
  run_closure-erase (act (assign d) k) tx c m s = run_closure-erase (k tt) tx d m s

  end-erase :
      {A : Type 0} (outcome : Outcome A) (tx : ℕ) (m : Monitor) (p : Bool × S)
      → erase (after_end outcome (see_end tx m p)) ≡ after_end outcome p
  end-erase outcome tx m (true, s) = refl
  end-erase outcome tx m (false, s) = refl

  destruct-erase :
      {A : Type 0} (outcome : Outcome A) (aborted : Bool) (tx : ℕ) (m : Monitor) (s : S)
      → erase (destruct (monitored L) outcome aborted tx (m, s)) ≡ destruct L outcome aborted tx s
  unfolding destruct
  destruct-erase outcome true tx m s = refl
  destruct-erase outcome false tx m s = end-erase outcome tx m (L.tm_end tx s)

  finish-erase :
      {C A : Type 0} (tx : ℕ) (o : Ran C A × (Monitor × S))
      → erase (finish (monitored L) tx o) ≡ finish L tx (erase o)
  finish-erase tx (r, (m, s)) =
      ap (λ u. ((u.0, r.captured), u.1)) (destruct-erase r.outcome r.aborted tx m s)

  begun-erase :
      {C A : Type 0} (func : C → Closure C A) (c : C) (m : Monitor) (p : Option ℕ × S)
      → erase (begun (monitored L) func c (see_begin m p)) ≡ begun L func c p
  begun-erase func c m (none, s) = refl
  begun-erase func c m (some tx, s) =
      finish-erase tx (run_closure (monitored L) (func c) tx c (begins (some tx) m, s))
      ∙ ap (finish L tx) (run_closure-erase (func c) tx c _ s)

  attempt-erase :
      {C A : Type 0} (ro : Bool) (func : C → Closure C A) (c : C) (m : Monitor) (s : S)
      → erase (attempt (monitored L) ro func c (m, s)) ≡ attempt L ro func c s
  unfolding attempt
  attempt-erase ro func c m s = begun-erase func c m (L.tm_begin ro s)

after_attempt-erase :
    {C S A : Type 0} (next : C → Monitor × S → (Option (Ending A) × C) × (Monitor × S))
    (next' : C → S → (Option (Ending A) × C) × S) (o : (Ending A × C) × (Monitor × S))
    → ((c : C) (m : Monitor) (s : S) → erase (next c (m, s)) ≡ next' c s)
    → erase (after_attempt next o) ≡ after_attempt next' (erase o)
unfolding after_attempt
after_attempt-erase next next' ((finished x, c), (m, s)) h = refl
after_attempt-erase next next' ((retried, c), (m, s)) h = h c m s
after_attempt-erase next next' ((out_of_memory, c), (m, s)) h = refl
after_attempt-erase next next' ((begin_failed, c), (m, s)) h = refl
after_attempt-erase next next' ((terminated, c), (m, s)) h = refl

-- The monitor changes nothing for the program.
pub transactional-erase :
    {C S A : Type 0} (L : Library S) (fuel : ℕ) (ro : Bool) (func : C → Closure C A) (c : C)
    (m : Monitor) (s : S)
    → erase (transactional (monitored L) fuel ro func c (m, s)) ≡ transactional L fuel ro func c s
unfolding transactional
transactional-erase L zero ro func c m s = refl
transactional-erase L (suc fuel) ro func c m s =
    after_attempt-erase (transactional (monitored L) fuel ro func) (transactional L fuel ro func)
      (attempt (monitored L) ro func c (m, s))
      (λ c' m' s'. transactional-erase L fuel ro func c' m' s')
    ∙ ap (after_attempt (transactional L fuel ro func)) (attempt-erase L ro func c m s)
