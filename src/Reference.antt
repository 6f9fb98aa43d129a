-- ===== src/Reference.antt =====
-- reference/tm.c: the region and its doubly linked list of allocated segments. An address of 0 is
-- NULL. What malloc, posix_memalign and shared_lock_init answer is an argument.
pub mod Chain
pub mod Segments
pub mod Transactions
mod Examples
use performant_transactional.Base.{
  ℕ, zero, suc, ◌+◌, ◌-◌, Bool, true, false, Option, none, some, List, [], ◌∷◌, ◌==◌, if◌then◌else◌,
}
use performant_transactional.Process.{update}

-- `prev` and `next` of the segment nodes by address, the bytes of the memory, and what `free` was
-- called on, the last first.
pub record Heap : Type 0 where
  pub prev : ℕ → ℕ
  pub next : ℕ → ℕ
  pub bytes : ℕ → ℕ
  pub freed : List ℕ

-- The region at address `self`, without its lock.
pub record Region : Type 0 where
  pub self : ℕ
  pub start : ℕ
  pub allocs : ℕ
  pub size : ℕ
  pub align : ℕ

-- sizeof(struct segment_node)
abbrev pub node_size : ℕ
node_size = 16

abbrev pub free : ℕ → Heap → Heap
free a h = record h { freed = a ∷ h.freed }

-- memset(a, 0, n)
abbrev pub clear : ℕ → ℕ → (ℕ → ℕ) → ℕ → ℕ
clear a zero m = m
clear a (suc n) m = clear (a + 1) n (update m a 0)

unfoldable pub tm_create : ℕ → ℕ → Option ℕ → Option ℕ → Bool → Heap → Option Region × Heap
tm_create size align none start lock h = (none, h)
tm_create size align (some r) none lock h = (none, free r h)
tm_create size align (some r) (some a) false h = (none, free r (free a h))
tm_create size align (some r) (some a) true h = (
  some (record { self = r; start = a; allocs = 0; size = size; align = align }),
  record h { bytes = clear a size h.bytes },
)

-- The loop of tm_destroy: `none` when the fuel is spent.
unfoldable pub free_segments : ℕ → ℕ → Heap → Option Heap
free_segments zero a h = none
free_segments (suc n) a h =
    let rest = free_segments n (h.next a) (free a h) in if a == 0 then some h else rest

abbrev pub free_region : Region → Option Heap → Option Heap
free_region region none = none
free_region region (some h) = some (free region.self (free region.start h))

unfoldable pub tm_destroy : ℕ → Region → Heap → Option Heap
tm_destroy n region h = free_region region (free_segments n region.allocs h)

unfoldable pub tm_start : Region → ℕ
tm_start region = region.start

unfoldable pub tm_size : Region → ℕ
tm_size region = region.size

unfoldable pub tm_align : Region → ℕ
tm_align region = region.align

-- if (a) a->prev = p
abbrev pub set_prev : ℕ → ℕ → (ℕ → ℕ) → ℕ → ℕ
set_prev a p prev = if a == 0 then prev else update prev a p

-- The new node in front of the list.
unfoldable pub link : ℕ → Region → Heap → Region × Heap
link sn region h = (
  record region { allocs = sn },
  record h {
    next = update h.next sn region.allocs;
    prev = set_prev region.allocs sn (update h.prev sn 0);
  },
)

-- What tm_alloc answers is the segment, or none for nomem_alloc.
unfoldable pub tm_alloc : ℕ → Option ℕ → Region → Heap → Option ℕ × (Region × Heap)
tm_alloc size none region h = (none, (region, h))
tm_alloc size (some sn) region h =
    let (region', h') = link sn region h in
    let segment = sn + node_size in
    (some segment, (region', record h' { bytes = clear segment size h'.bytes }))

-- if (p) p->next = n
abbrev pub set_next : ℕ → ℕ → (ℕ → ℕ) → ℕ → ℕ
set_next p n next = if p == 0 then next else update next p n

unfoldable pub unlink : ℕ → Region → Heap → Region × Heap
unlink sn region h =
    let p = h.prev sn in
    let n = h.next sn in
    (
      record region { allocs = if p == 0 then n else region.allocs },
      record h { next = set_next p n h.next; prev = set_prev n p h.prev },
    )

unfoldable pub tm_free : ℕ → Region → Heap → Region × Heap
tm_free segment region h =
    let sn = segment - node_size in let (region', h') = unlink sn region h in (region', free sn h')

-- Calls within transactions: tm_alloc with what posix_memalign answers, and tm_free.
pub data Call : Type 0 where
  allocate : ℕ → Option ℕ → Call
  release : ℕ → Call

abbrev pub perform : Call → Region → Heap → Region × Heap
perform (allocate size answer) region h = (tm_alloc size answer region h).1
perform (release segment) region h = tm_free segment region h

unfoldable pub serve : List Call → Region → Heap → Region × Heap
serve [] region h = (region, h)
serve (c ∷ cs) region h = serve cs (perform c region h).0 (perform c region h).1

-- A program that creates a region, makes its calls if it got one, and destroys it.
abbrev pub use_region : ℕ → List Call → Option Region × Heap → Option Heap
use_region n cs (none, h) = some h
use_region n cs (some region, h) = tm_destroy n (serve cs region h).0 (serve cs region h).1

unfoldable pub lifetime : ℕ → ℕ → Option ℕ → Option ℕ → Bool → ℕ → List Call → Heap → Option Heap
lifetime size align region start lock n cs h =
    use_region n cs (tm_create size align region start lock h)
