-- ===== src/Reference/Examples.antt =====
-- A region of reference/tm.c with few segments, and transactions of two threads.
use performant_transactional.Base.{
  ℕ, zero, suc, ◌<◌, true, false, some, none, List, [], ◌∷◌, ◌≡◌, refl, arith, length,
}
use mathlib.Core.List.{Memᴰ}
use performant_transactional.Reference.{Heap, Region, Call, allocate, release, serve, lifetime}
use performant_transactional.Reference.Chain.{Avoids, IsDistinct, IsChain, remove}
use performant_transactional.Reference.Segments.{Keeps, live_after, IsLegal, serve-Keeps}
use performant_transactional.Process.{ret, ◌>>=◌}
use performant_transactional.Process.Blocking.{interleave, turn}
use performant_transactional.Reference.Transactions.{
  Store, Tx, do_access, drop_reader, exec, tm_read, tm_write, tm_begin, tm_end, transact, work,
  begin, after_turns,
}
use performant_transactional.Reference.Transactions.Contract.{serial, IsSerial, own, ReadsOnly}
use performant_transactional.Reference.Transactions.Results.{
  AllKeep, onto, transactions-serial, transactions-own,
}
use performant_transactional.Reference.Segments.Freed.{FreesAll, acquired, lifetime-FreesAll}

abbrev empty_heap : Heap
empty_heap = record { prev = λ a. 0; next = λ a. 0; bytes = λ a. 7; freed = [] }

abbrev empty_region : Region
empty_region = record { self = 10; start = 20; allocs = 0; size = 8; align = 8 }

-- Three nodes, of which the middle one is taken out; one allocation fails.
abbrev calls : List Call
calls =
    allocate 8 (some 100)
    ∷ allocate 8 (some 200)
    ∷ allocate 8 none
    ∷ allocate 8 (some 300)
    ∷ release 216
    ∷ []

calls-IsLegal : IsLegal calls []
unfolding IsLegal Avoids
calls-IsLegal = (
  ((λ e. absurd (omega arith)), tt),
  (
    ((λ e. absurd (omega arith)), ((λ e. absurd (omega arith)), tt)),
    (
      tt,
      (
        (
          (λ e. absurd (omega arith)),
          ((λ e. absurd (omega arith)), ((λ e. absurd (omega arith)), tt)),
        ),
        (Memᴰ.tail (Memᴰ.head refl), tt),
      ),
    ),
  ),
)

empty-Keeps : Keeps [] empty_region empty_heap
unfolding Keeps IsChain IsDistinct
empty-Keeps = (refl, tt)

few_left : length (live_after calls []) < 3
unfolding live_after remove
few_left = omega arith

serve-Keeps_example :
    Keeps
      (live_after calls [])
      (serve calls empty_region empty_heap).0
      (serve calls empty_region empty_heap).1
serve-Keeps_example = serve-Keeps calls [] empty_region empty_heap calls-IsLegal empty-Keeps

lifetime-FreesAll_example :
    FreesAll empty_heap
      (acquired (some 10) (some 20) true calls)
      (lifetime 8 8 (some 10) (some 20) true 3 calls empty_heap)
lifetime-FreesAll_example =
    lifetime-FreesAll 8 8 (some 10) (some 20) true 3 calls empty_heap calls-IsLegal few_left

-- A thread whose first tm_begin fails writes two bytes, and another waits for it and reads them.
abbrev empty_store : Store
empty_store = record { region = empty_region; heap = empty_heap }

abbrev writing : Tx
writing = record { is_ro = false; body = tm_write (1 ∷ 2 ∷ []) 20 >>= λ _. ret [] }

abbrev reading : Tx
reading = record { is_ro = true; body = tm_read 20 2 }

abbrev two_threads : ℕ → List Tx
two_threads zero = writing ∷ writing ∷ []
two_threads (suc zero) = reading ∷ []
two_threads (suc (suc i)) = []

abbrev turns : List ℕ
turns = 0 ∷ 0 ∷ 1 ∷ 0 ∷ 1 ∷ 0 ∷ 0 ∷ 1 ∷ 1 ∷ 1 ∷ 1 ∷ []

two-AllKeep : (i : ℕ) → AllKeep (two_threads i)
unfolding AllKeep ReadsOnly tm_read
two-AllKeep zero = (tt, (tt, tt))
two-AllKeep (suc zero) = ((λ r r'. tt), tt)
two-AllKeep (suc (suc i)) = tt

two_free : (after_turns empty_store (true ∷ []) two_threads turns).shared.writer ≡ none
unfolding after_turns begin work transact tm_begin tm_end tm_read tm_write exec do_access
    drop_reader interleave turn
two_free = refl

reader_returned :
    (after_turns empty_store (true ∷ []) two_threads turns).threads 1 ≡ ret (some (1 ∷ 2 ∷ []) ∷ [])
unfolding after_turns begin work transact tm_begin tm_end tm_read tm_write exec do_access
    drop_reader interleave turn
reader_returned = refl

transactions-serial_example :
    let s = (after_turns empty_store (true ∷ []) two_threads turns).shared in
    IsSerial s.history empty_store × (s.contents ≡ serial s.history empty_store)
transactions-serial_example =
    transactions-serial empty_store (true ∷ []) two_threads turns two-AllKeep two_free

transactions-own_example :
    let s = (after_turns empty_store (true ∷ []) two_threads turns).shared in
    IsSerial s.history empty_store
    × (own 1 s.history ≡ onto (two_threads 1) (some (1 ∷ 2 ∷ []) ∷ []) [])
transactions-own_example =
    transactions-own empty_store (true ∷ []) two_threads turns 1 (some (1 ∷ 2 ∷ []) ∷ [])
      two-AllKeep reader_returned
