-- ===== src/Grading/Transaction/Protocol.antt =====
-- What `transactional` (grading/transactional.hpp) owes to the library that it calls: each transaction
-- that began is used until the library aborts it or until its one tm_end, and never afterwards.
pub mod Closures
pub mod Erasure
pub mod Ends
use performant_transactional.Base.{
  ℕ, ◌+◌, ◌<◌, ◌≤◌, Bool, true, false, Option, none, some, ◌≡◌, ◌==◌, if◌then◌else◌,
}
use performant_transactional.Grading.Transaction.{
  success, nomem, abort, AllocAnswer, Library, Ending, finished, retried, out_of_memory,
  begin_failed, terminated,
}

-- A thread at the library: in no transaction, with whether the last one committed; in one; or it did
-- what it must not do. The number is that of the transactions so far.
pub data Monitor : Type 0 where
  closed : ℕ → Bool → Monitor
  inside : ℕ → ℕ → Monitor
  broken : Monitor

abbrev pub begins : Option ℕ → Monitor → Monitor
begins (some tx) (closed n b) = inside (n + 1) tx
begins none (closed n b) = closed (n + 1) false
begins h (inside n tx) = broken
begins h broken = broken

-- A call on `tx` after which the transaction goes on, and one that was the last.
abbrev pub goes_on : ℕ → Monitor → Monitor
goes_on tx (closed n b) = broken
goes_on tx (inside n tx') = if tx == tx' then inside n tx' else broken
goes_on tx broken = broken

abbrev pub ends : ℕ → Bool → Monitor → Monitor
ends tx b (closed n b') = broken
ends tx b (inside n tx') = if tx == tx' then closed n b else broken
ends tx b broken = broken

abbrev pub uses : ℕ → Bool → Monitor → Monitor
uses tx true m = goes_on tx m
uses tx false m = ends tx false m

-- Each call of the library, as the monitor sees it.
module _ {S : Type 0} where
  abbrev pub see_begin : Monitor → Option ℕ × S → Option ℕ × (Monitor × S)
  see_begin m (h, s) = (h, (begins h m, s))

  abbrev pub see_end : ℕ → Monitor → Bool × S → Bool × (Monitor × S)
  see_end tx m (b, s) = (b, (ends tx b m, s))

  abbrev pub see_read : ℕ → Monitor → Option ℕ × S → Option ℕ × (Monitor × S)
  see_read tx m (some v, s) = (some v, (uses tx true m, s))
  see_read tx m (none, s) = (none, (uses tx false m, s))

  abbrev pub see_access : ℕ → Monitor → Bool × S → Bool × (Monitor × S)
  see_access tx m (b, s) = (b, (uses tx b m, s))

  abbrev pub see_alloc : ℕ → Monitor → AllocAnswer × S → AllocAnswer × (Monitor × S)
  see_alloc tx m (success p, s) = (success p, (uses tx true m, s))
  see_alloc tx m (nomem, s) = (nomem, (uses tx true m, s))
  see_alloc tx m (abort, s) = (abort, (uses tx false m, s))

  -- The library under a monitor
  abbrev pub monitored : Library S → Library (Monitor × S)
  monitored L = record {
    tm_begin = λ ro (m, s). see_begin m (L.tm_begin ro s);
    tm_end = λ tx (m, s). see_end tx m (L.tm_end tx s);
    tm_read = λ tx a (m, s). see_read tx m (L.tm_read tx a s);
    tm_write = λ tx a v (m, s). see_access tx m (L.tm_write tx a v s);
    tm_alloc = λ tx n (m, s). see_alloc tx m (L.tm_alloc tx n s);
    tm_free = λ tx a (m, s). see_access tx m (L.tm_free tx a s);
  }

-- Whether the last transaction of `transactional` committed, by how it ended. A partial one commits when
-- there was no memory.
unfoldable pub has_committed : {A : Type 0} → Option (Ending A) → Bool
has_committed none = false
has_committed (some (finished x)) = true
has_committed (some out_of_memory) = true
has_committed (some retried) = false
has_committed (some begin_failed) = false
has_committed (some terminated) = false

-- With fuel for `fuel` attempts after `k` transactions: how many there may be in the end.
unfoldable pub Tried : {A : Type 0} → ℕ → ℕ → Option (Ending A) → ℕ → Type 0
Tried fuel k none n = n ≡ k + fuel
Tried fuel k (some e) n = (k < n) × (n ≤ k + fuel)

-- The monitor in the end.
unfoldable pub IsOver : {A : Type 0} → ℕ → ℕ → Option (Ending A) → Monitor → Type 0
IsOver fuel k e (closed n b) = (b ≡ has_committed e) × Tried fuel k e n
IsOver fuel k e (inside n tx) = ⊥
IsOver fuel k e broken = ⊥
