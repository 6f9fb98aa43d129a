-- ===== src/Reference/Segments.antt =====
-- The list of segments of reference/tm.c keeps the nodes that were handed out and not taken back.
pub mod Freed
use performant_transactional.Base.{
  ℕ, zero, suc, ◌+◌, ◌-◌, ◌<◌, Bool, true, false, Option, none, some, List, [], ◌∷◌, ◌≡◌, ◌≢◌, ◌⊎◌,
  refl, sym, ap, ◌∙◌, inl, inr, ◌==◌, ==_iff, Bool-cases, arith, length, if◌then◌else◌,
}
use mathlib.Core.List.{Memᴰ}
use performant_transactional.Process.{update}
use performant_transactional.Reference.{
  Heap, Region, node_size, free, tm_alloc, tm_free, link, unlink, free_segments, free_region,
  tm_destroy, tm_create, Call, allocate, release, perform, serve,
}
use performant_transactional.Reference.Chain.{
  IsChain, Avoids, IsDistinct, remove, differ, link-IsChain, prev-Memᴰ, Avoids-Memᴰ, IsChain-Avoids,
  remove-IsDistinct,
}
use performant_transactional.Reference.Chain.Unlink.{head', taken_out, first-prev}

-- The region's list is a doubly linked list of these nodes.
unfoldable pub Keeps : List ℕ → Region → Heap → Type 0
Keeps xs region h = IsChain h.prev h.next 0 xs region.allocs × IsDistinct xs

pub tm_alloc-Keeps :
    (size sn : ℕ) (xs : List ℕ) (region : Region) (h : Heap)
    → sn ≢ 0
    → Avoids sn xs
    → Keeps xs region h
    → Keeps (sn ∷ xs) (tm_alloc size (some sn) region h).1.0 (tm_alloc size (some sn) region h).1.1
unfolding Keeps tm_alloc link IsDistinct
tm_alloc-Keeps size sn xs region h z v k =
    (link-IsChain h.prev h.next sn xs region.allocs z v k.1 k.0, (v, k.1))

-- The test of `sn->prev` tells whether the node is the first.
new_head :
    (xs : List ℕ) (sn : ℕ) (region : Region) (h : Heap)
    → IsChain h.prev h.next 0 xs region.allocs
    → Memᴰ sn xs
    → (if h.prev sn == 0 then h.next sn else region.allocs) ≡ head' h.prev h.next sn region.allocs
new_head xs sn region h c m = elim (prev-Memᴰ h.prev h.next 0 sn xs region.allocs c m) [
  | inl e ↦ rw ((==_iff (h.prev sn) 0).1 e.1, (==_iff region.allocs sn).1 e.0) refl
  | inr k ↦
      let some_prev : h.prev sn ≢ 0 = λ e.
        Avoids-Memᴰ 0 (h.prev sn) xs (IsChain-Avoids h.prev h.next 0 xs region.allocs c) k
          (sym e) in
      rw
        (
          differ (h.prev sn) 0 some_prev,
          differ region.allocs sn
              (λ e. some_prev (first-prev h.prev h.next 0 sn xs region.allocs c m e)),
        )
        refl
]

pub tm_free-Keeps :
    (segment : ℕ) (xs : List ℕ) (region : Region) (h : Heap)
    → Memᴰ (segment - node_size) xs
    → Keeps xs region h
    → Keeps
        (remove (segment - node_size) xs)
        (tm_free segment region h).0
        (tm_free segment region h).1
unfolding Keeps tm_free unlink
tm_free-Keeps segment xs region h m k = (
  rw (new_head xs (segment - node_size) region h k.0 m) (
      taken_out h.prev h.next (segment - node_size) 0 xs region.allocs
        (IsChain-Avoids h.prev h.next 0 xs region.allocs k.0) k.1 k.0 m),
  remove-IsDistinct (segment - node_size) xs k.1,
)

-- The nodes that a client has after calls, the last first.
abbrev pub live : Call → List ℕ → List ℕ
live (allocate size none) xs = xs
live (allocate size (some sn)) xs = sn ∷ xs
live (release segment) xs = remove (segment - node_size) xs

unfoldable pub live_after : List Call → List ℕ → List ℕ
live_after [] xs = xs
live_after (c ∷ cs) xs = live_after cs (live c xs)

-- The allocator answers with memory that is not in use; a client frees what it has.
abbrev pub IsPermitted : Call → List ℕ → Type 0
IsPermitted (allocate size none) xs = Unit
IsPermitted (allocate size (some sn)) xs = (sn ≢ 0) × Avoids sn xs
IsPermitted (release segment) xs = Memᴰ (segment - node_size) xs

unfoldable pub IsLegal : List Call → List ℕ → Type 0
IsLegal [] xs = Unit
IsLegal (c ∷ cs) xs = IsPermitted c xs × IsLegal cs (live c xs)

-- The nodes that the allocator handed out.
abbrev pub add_answer : Call → List ℕ → List ℕ
add_answer (allocate size (some sn)) rest = sn ∷ rest
add_answer (allocate size none) rest = rest
add_answer (release segment) rest = rest

unfoldable pub handed_out : List Call → List ℕ
handed_out [] = []
handed_out (c ∷ cs) = add_answer c (handed_out cs)

perform-Keeps :
    (c : Call) (xs : List ℕ) (region : Region) (h : Heap)
    → IsPermitted c xs
    → Keeps xs region h
    → Keeps (live c xs) (perform c region h).0 (perform c region h).1
unfolding tm_alloc
perform-Keeps (allocate size none) xs region h p k = k
perform-Keeps (allocate size (some sn)) xs region h p k =
    tm_alloc-Keeps size sn xs region h p.0 p.1 k
perform-Keeps (release segment) xs region h p k = tm_free-Keeps segment xs region h p k

-- tm_alloc and tm_free, in any order, keep the region's list in step with what the client has, where
-- the allocator answers with memory that is not in use and the client frees only what it has.
pub serve-Keeps :
    (cs : List Call) (xs : List ℕ) (region : Region) (h : Heap)
    → IsLegal cs xs
    → Keeps xs region h
    → Keeps (live_after cs xs) (serve cs region h).0 (serve cs region h).1
unfolding serve live_after IsLegal
serve-Keeps [] xs region h l k = k
serve-Keeps (c ∷ cs) xs region h l k =
    serve-Keeps cs (live c xs) (perform c region h).0 (perform c region h).1 l.1
      (perform-Keeps c xs region h l.0 k)
