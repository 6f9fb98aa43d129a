-- ===== src/Reference/Transactions.antt =====
-- Transactions of reference/tm.c under the lock for readers and writers of reference/shared-lock.c.
-- Each byte of a memcpy is an action; so is a call of tm_alloc or tm_free, and of the lock.
pub mod Contract
pub mod Readers
pub mod Writers
pub mod Results
use performant_transactional.Base.{
  ℕ, zero, suc, ◌+◌, ◌-◌, ◌^◌, Bool, true, false, Option, none, some, List, [], ◌∷◌, ◌==◌,
  if◌then◌else◌,
}
use performant_transactional.Process.{Prog, ret, act, ◌>>=◌, ◌>>◌, Semantics, System, run, update}
use performant_transactional.Process.Blocking.{Blocking, interleave}
use performant_transactional.Reference.{Region, Heap, tm_alloc, tm_free}

-- What the transactions share, but for the lock.
pub record Store : Type 0 where
  pub region : Region
  pub heap : Heap

pub data Access : Type 0 where
  load : ℕ → Access
  store : ℕ → ℕ → Access
  allocate : ℕ → Option ℕ → Access
  release : ℕ → Access

abbrev pub Reply : Access → Type 0
Reply (load a) = ℕ
Reply (store a v) = Unit {0}
Reply (allocate size answer) = Option ℕ
Reply (release segment) = Unit {0}

abbrev pub allocated : Option ℕ × (Region × Heap) → Option ℕ × Store
allocated (segment, (region, h)) = (segment, record { region = region; heap = h })

abbrev pub released : Region × Heap → Store
released (region, h) = record { region = region; heap = h }

unfoldable pub do_access : Semantics Access Reply Store
do_access (load a) m = (m.heap.bytes a, m)
do_access (store a v) m =
    (tt, record m { heap = record m.heap { bytes = update m.heap.bytes a v } })
do_access (allocate size answer) m = allocated (tm_alloc size answer m.region m.heap)
do_access (release segment) m = (tt, released (tm_free segment m.region m.heap))

-- tm_read: memcpy of `n` bytes, which it answers
unfoldable pub tm_read : ℕ → ℕ → Prog Access Reply (List ℕ)
tm_read source zero = ret []
tm_read source (suc n) = do b ← act (load source) ret; bs ← tm_read (source + 1) n; ret (b ∷ bs)

-- tm_write: memcpy of the bytes
unfoldable pub tm_write : List ℕ → ℕ → Prog Access Reply (Unit {0})
tm_write [] target = ret tt
tm_write (b ∷ bs) target = do act (store target b) ret; tm_write bs (target + 1)

-- What a client does between tm_begin and tm_end, up to its result.
abbrev pub Body : Type 0
Body = Prog Access Reply (List ℕ)

-- A transaction that ended, by the thread that made it. It is not in the code.
pub record Commit : Type 0 where
  pub thread : ℕ
  pub body : Body
  pub result : List ℕ

-- The lock has readers or a writer. `refusals`: whether the next calls of the lock's functions fail.
-- `history`, the last commit first, is not in the code.
pub record Shared : Type 0 where
  pub contents : Store
  pub writer : Option ℕ
  pub readers : List ℕ
  pub refusals : List Bool
  pub history : List Commit

pub data Action : Type 0 where
  access : Access → Action
  rdlock wrlock : Action
  unlock : Body → List ℕ → Action

abbrev pub Answer : Action → Type 0
Answer (access a) = Reply a
Answer rdlock = Bool
Answer wrlock = Bool
Answer (unlock body result) = Unit {0}

abbrev pub refuses : List Bool → Bool
refuses [] = false
refuses (f ∷ fs) = f

abbrev pub rest : List Bool → List Bool
rest [] = []
rest (f ∷ fs) = fs

-- pthread_rwlock_rdlock waits for a writer, pthread_rwlock_wrlock for anybody.
abbrev pub share : ℕ → Bool → Option ℕ → Shared → Option (Bool × Shared)
share i true w s = some (false, record s { refusals = rest s.refusals })
share i false (some j) s = none
share i false none s = some (true, record s { readers = i ∷ s.readers; refusals = rest s.refusals })

abbrev pub own_alone : ℕ → Bool → Option ℕ → List ℕ → Shared → Option (Bool × Shared)
own_alone i true w rs s = some (false, record s { refusals = rest s.refusals })
own_alone i false (some j) rs s = none
own_alone i false none (r ∷ rs) s = none
own_alone i false none [] s = some (true, record s { writer = some i; refusals = rest s.refusals })

unfoldable pub drop_reader : ℕ → List ℕ → List ℕ
drop_reader i [] = []
drop_reader i (r ∷ rs) = let others = drop_reader i rs in if r == i then rs else r ∷ others

-- pthread_rwlock_unlock of what the thread holds
abbrev pub let_go : ℕ → Option ℕ → Shared → Shared
let_go i (some j) s = record s { writer = none }
let_go i none s = record s { readers = drop_reader i s.readers }

abbrev pub accessed : {R : Type 0} → Shared → R × Store → Option (R × Shared)
accessed s (r, m) = some (r, record s { contents = m })

unfoldable pub exec : ℕ → Blocking Action Answer Shared
exec i (access a) s = accessed s (do_access a s.contents)
exec i rdlock s = share i (refuses s.refusals) s.writer s
exec i wrlock s = own_alone i (refuses s.refusals) s.writer s.readers s
exec i (unlock body result) s =
    let u = let_go i s.writer s in
    some
      (tt, record u { history = record { thread = i; body = body; result = result } ∷ u.history })

abbrev pub Task : Type 0 → Type 0
Task A = Prog Action Answer A

-- tx_t: the constants of tm.h and tm.c
abbrev pub invalid_tx : ℕ
invalid_tx = 2 ^ 64 - 1

abbrev pub read_only_tx : ℕ
read_only_tx = 2 ^ 64 - 1 - 10

abbrev pub read_write_tx : ℕ
read_write_tx = 2 ^ 64 - 1 - 11

unfoldable pub tm_begin : Bool → Task ℕ
tm_begin true = do ok ← act rdlock ret; ret (if ok then read_only_tx else invalid_tx)
tm_begin false = do ok ← act wrlock ret; ret (if ok then read_write_tx else invalid_tx)

-- Both of its branches are pthread_rwlock_unlock.
unfoldable pub tm_end : ℕ → Body → List ℕ → Task (Unit {0})
tm_end tx body result =
    if tx == read_only_tx then act (unlock body result) ret else act (unlock body result) ret

abbrev pub embed : {A : Type 0} → Body → (List ℕ → Task A) → Task A
embed (ret v) k = k v
embed (act a f) k = act (access a) (λ r. embed (f r) k)

pub record Tx : Type 0 where
  pub is_ro : Bool
  pub body : Body

-- A client's transaction: none when tm_begin fails.
unfoldable pub transact : Tx → Task (Option (List ℕ))
transact t = do
  tx ← tm_begin t.is_ro
  if tx == invalid_tx
      then ret none
      else embed t.body (λ v. tm_end tx t.body v >>= λ _. ret (some v))

-- A thread makes its transactions one after the other.
unfoldable pub work : List Tx → Task (List (Option (List ℕ)))
work [] = ret []
work (t ∷ ts) = do v ← transact t; vs ← work ts; ret (v ∷ vs)

module _ (init : Store) (refusals : List Bool) (txs : ℕ → List Tx) where
  unfoldable pub begin : System Action Answer Shared (List (Option (List ℕ)))
  begin = record {
    shared = record {
      contents = init;
      writer = none;
      readers = [];
      refusals = refusals;
      history = [];
    };
    threads = λ i. work (txs i);
  }

  unfoldable pub after_turns : List ℕ → System Action Answer Shared (List (Option (List ℕ)))
  after_turns is = interleave exec is begin
