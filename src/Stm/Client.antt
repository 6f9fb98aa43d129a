-- ===== src/Stm/Client.antt =====
-- The interface of include/tm.hpp as calls, and the threads that make them.
use performant_transactional.Base.{ℕ, Bool, Option}
use performant_transactional.Process.{Prog, ret, act, ◌>>=◌}
use performant_transactional.Stm.State.{Tm}
use performant_transactional.Stm.Region.{MemoryRegion}
use performant_transactional.Stm.Transaction.{Transaction, tm_begin}
use performant_transactional.Stm.Access.{
  Private, Continued, Alloc, tm_read, tm_write, tm_alloc, tm_free,
}
use performant_transactional.Stm.Commit.{tm_end}

-- The calls that threads make concurrently: all but tm_create and tm_destroy.
pub data Call : Type 0 where
  begins : Bool → Call
  ends : Transaction → Call
  reads : MemoryRegion → Transaction → ℕ → ℕ → ℕ → Private → Call
  writes : MemoryRegion → Transaction → Private → ℕ → ℕ → ℕ → Call
  allocs : Transaction → ℕ → ℕ → Call
  frees : Transaction → ℕ → Call

abbrev pub Answer : Call → Type 0
Answer (begins is_ro) = Option Transaction
Answer (ends txn) = Bool
Answer (reads region txn source size target m) = Continued
Answer (writes region txn m source size target) = Transaction
Answer (allocs txn size target) = Alloc × Transaction × ℕ
Answer (frees txn target) = Bool

unfoldable pub perform : (c : Call) → Tm (Answer c)
perform (begins is_ro) = tm_begin is_ro
perform (ends txn) = tm_end txn
perform (reads region txn source size target m) = tm_read region txn source size target m
perform (writes region txn m source size target) = tm_write region txn m source size target
perform (allocs txn size target) = tm_alloc txn size target
perform (frees txn target) = tm_free txn target

-- A thread that makes calls, in any way that depends on their answers.
unfoldable pub serve : {A : Type 0} → Prog Call Answer A → Tm A
unfolding perform
serve (ret a) = ret a
serve (act c k) = perform c >>= λ r. serve (k r)
