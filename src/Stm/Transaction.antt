-- ===== src/Stm/Transaction.antt =====
-- `Transaction` of 394984/data-structures.hpp, its sets, and tm_begin of 394984/tm.cpp.
use performant_transactional.Base.{
  ℕ, Bool, Option, none, some, List, [], ◌∷◌, ◌==◌, if◌then◌else◌, has,
}
use performant_transactional.Process.{◌>>=◌, ◌>>◌}
use performant_transactional.Stm.State.{
  null, allocate, release, load_gvc, Tm, pure, ask, release_all,
}

-- An entry of the write set: a target address, and the bytes that its `WriteOperation` holds.
abbrev pub Entry : Type 0
Entry = ℕ × List ℕ

-- The lists stand for `unordered_set` and `unordered_map`: their order is the order in which the
-- code meets the elements. What is stated of `tm_end` is stated for every order.
pub record Transaction : Type 0 where
  pub self : ℕ  -- the address of the structure: the handle `tx_t`
  pub rv : ℕ
  pub read_set : List ℕ
  pub write_set : List Entry
  pub seg_list : List ℕ
  pub is_ro : Bool

-- `write_set.insert_or_assign(a, bytes)`
unfoldable pub insert_or_assign : ℕ → List ℕ → List Entry → List Entry
insert_or_assign a bs [] = (a, bs) ∷ []
insert_or_assign a bs ((b, cs) ∷ ws) =
    if b == a then (a, bs) ∷ ws else (b, cs) ∷ insert_or_assign a bs ws

-- `write_set.find(a)`
unfoldable pub find : ℕ → List Entry → Option (List ℕ)
find a [] = none
find a ((b, bs) ∷ ws) = if b == a then some bs else find a ws

-- `read_set.insert(a)`
unfoldable pub insert_read : ℕ → List ℕ → List ℕ
insert_read a rs = if has a rs then rs else a ∷ rs

unfoldable pub new_transaction : ℕ → ℕ → Bool → Transaction
new_transaction self gvc is_ro = record {
  self = self;
  rv = gvc;
  read_set = [];
  write_set = [];
  seg_list = [];
  is_ro = is_ro;
}

-- The destructor, and the memory of the structure.
unfoldable pub delete_txn : Transaction → Tm (Unit {0})
delete_txn txn = do release_all txn.seg_list; ask (release txn.self)

-- `none` is `invalid_tx`.
unfoldable pub tm_begin : Bool → Tm (Option Transaction)
unfolding new_transaction
tm_begin is_ro = do
  self ← ask allocate
  if self == null
      then pure none
      else (do gvc ← ask load_gvc; pure (some (new_transaction self gvc is_ro)))
