-- ===== src/Stm/Access.antt =====
-- The accesses of a transaction: tm_read, tm_write, tm_alloc and tm_free of 394984/tm.cpp.
pub mod Offsets
use performant_transactional.Base.{
  ℕ, zero, suc, ◌+◌, Bool, true, false, ◌||◌, not, Option, none, some, List, [], ◌∷◌, ◌++◌, ◌==◌,
  ltb, if◌then◌else◌,
}
use performant_transactional.Process.{Prog, ret, act, ◌>>=◌, ◌>>◌, update}
use performant_transactional.Stm.State.{null, Act, allocate, Tm, pure, ask, load_bytes, clear_bytes}
use performant_transactional.Stm.Lock.{stripe, get_version, is_locked}
use performant_transactional.Stm.Region.{MemoryRegion, tm_align}
use performant_transactional.Stm.Transaction.{
  Transaction, find, insert_read, insert_or_assign, delete_txn,
}
use Offsets.{offsets}

-- The caller's private memory: the byte at each private address.
abbrev pub Private : Type 0
Private = ℕ → ℕ

-- `memcpy` within, out of and into private memory.
unfoldable pub take_bytes : Private → ℕ → ℕ → List ℕ
take_bytes m a zero = []
take_bytes m a (suc n) = m a ∷ take_bytes m (a + 1) n

unfoldable pub put_bytes : Private → ℕ → List ℕ → Private
put_bytes m a [] = m
put_bytes m a (b ∷ bs) = put_bytes (update m a b) (a + 1) bs

-- `none` says that the transaction was deleted, and that the call returned false.
abbrev pub Continued : Type 0
Continued = Option Transaction × Private

unfoldable pub give_up : Transaction → Private → Tm Continued
give_up txn m = do delete_txn txn; pure (none, m)

-- One word of a read-only transaction: check, copy, check again.
unfoldable pub read_word_ro : ℕ → Transaction → ℕ → ℕ → Private → Tm Continued
read_word_ro word_size txn source target m = do
  let l = stripe source
  version ← get_version l
  locked ← is_locked l
  if locked || ltb txn.rv version then give_up txn m else (do
    bs ← load_bytes source word_size
    let m' = put_bytes m target bs
    new_version ← get_version l
    locked' ← is_locked l
    if locked' || not (new_version == version) || ltb txn.rv new_version
        then give_up txn m'
        else pure (some txn, m'))

-- The value of a word for a read-write transaction: its own write, or else the shared word.
unfoldable pub read_value : ℕ → Option (List ℕ) → ℕ → Tm (List ℕ)
read_value word_size (some bs) source = pure bs
read_value word_size none source = load_bytes source word_size

unfoldable pub read_word_rw : ℕ → Transaction → ℕ → ℕ → Private → Tm Continued
read_word_rw word_size txn source target m = do
  let l = stripe source
  version ← get_version l
  locked ← is_locked l
  if locked || ltb txn.rv version then give_up txn m else (do
    bs ← read_value word_size (find source txn.write_set) source
    let m' = put_bytes m target bs
    new_version ← get_version l
    locked' ← is_locked l
    if locked' || not (new_version == version)
        then give_up txn m'
        else pure (some (record txn { read_set = insert_read source txn.read_set }), m'))

unfoldable pub read_word : ℕ → Transaction → ℕ → ℕ → Private → Tm Continued
read_word word_size txn source target m =
    if txn.is_ro
    then read_word_ro word_size txn source target m
    else read_word_rw word_size txn source target m

-- The loop over the words at the given offsets.
unfoldable pub read_words : ℕ → List ℕ → Transaction → ℕ → ℕ → Private → Tm Continued
read_words word_size [] txn source target m = pure (some txn, m)
read_words word_size (i ∷ is) txn source target m = do
  (continued, m') ← read_word word_size txn (source + i) (target + i) m
  elim continued [
    | none ↦ pure (none, m')
    | some txn' ↦ read_words word_size is txn' source target m'
  ]

unfoldable pub tm_read : MemoryRegion → Transaction → ℕ → ℕ → ℕ → Private → Tm Continued
tm_read region txn source size target m =
    read_words (tm_align region) (offsets size (tm_align region)) txn source target m

unfoldable pub write_words : ℕ → List ℕ → Transaction → ℕ → ℕ → Private → Transaction
write_words word_size [] txn source target m = txn
write_words word_size (i ∷ is) txn source target m =
    write_words word_size is
      (record txn {
        write_set =
            insert_or_assign (target + i) (take_bytes m (source + i) word_size) txn.write_set;
      })
      source target m

-- `tm_write` always returns true: the transaction goes on.
unfoldable pub tm_write : MemoryRegion → Transaction → Private → ℕ → ℕ → ℕ → Tm Transaction
tm_write region txn m source size target =
    pure (write_words (tm_align region) (offsets size (tm_align region)) txn source target m)

-- `enum class Alloc` of include/tm.hpp
pub data Alloc : Type 0 where
  success abort nomem : Alloc

-- The status, the transaction, and `*target`, which keeps its value if there is no memory.
unfoldable pub tm_alloc : Transaction → ℕ → ℕ → Tm (Alloc × Transaction × ℕ)
tm_alloc txn size target = do
  new_seg ← ask allocate
  if new_seg == null then pure (nomem, txn, target) else (do
    clear_bytes new_seg size
    pure (success, record txn { seg_list = txn.seg_list ++ new_seg ∷ [] }, new_seg))

unfoldable pub tm_free : Transaction → ℕ → Tm Bool
tm_free txn target = pure true
