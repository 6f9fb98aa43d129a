-- ===== src/Stm/Region.antt =====
-- `MemoryRegion`: tm_create, tm_destroy and the queries of 394984/tm.cpp.
use performant_transactional.Base.{ℕ, zero, suc, Option, none, some, ◌==◌, if◌then◌else◌}
use performant_transactional.Process.{◌>>=◌, ◌>>◌}
use performant_transactional.Stm.State.{
  null, num_locks, allocate, release, load_segs, clear_segs, store_lock, Tm, pure, ask, clear_bytes,
  release_all,
}
use performant_transactional.Stm.Lock.{initial_word}

-- The list of segments and the words of the locks are in the shared state.
pub record MemoryRegion : Type 0 where
  pub self : ℕ  -- the address of the structure: the handle `shared_t`
  pub size : ℕ
  pub align : ℕ
  pub locks : ℕ  -- the address of the array
  pub start : ℕ

-- The constructor: an empty list, no locks, no memory.
unfoldable pub new_region : ℕ → ℕ → ℕ → Tm MemoryRegion
new_region self size align = do
  ask clear_segs
  pure (record { self = self; size = size; align = align; locks = null; start = null })

-- The destructor, and the memory of the structure.
unfoldable pub delete_region : MemoryRegion → Tm (Unit {0})
delete_region region = do
  segs ← ask load_segs
  release_all segs
  ask clear_segs
  ask (release region.locks)
  ask (release region.start)
  ask (release region.self)

-- `VersionedWriteLock()` for the first `n` locks of the array.
unfoldable pub construct_locks : ℕ → Tm (Unit {0})
construct_locks zero = pure tt
construct_locks (suc n) = do construct_locks n; ask (store_lock n initial_word)

-- The last part of `tm_create`: the memory of the first segment.
unfoldable pub create_start : MemoryRegion → Tm (Option MemoryRegion)
create_start region = do
  start ← ask allocate
  if start == null
      then (do ask (release region.locks); delete_region region; pure none)
      else (do clear_bytes start region.size; pure (some (record region { start = start })))

unfoldable pub create_locks : MemoryRegion → Tm (Option MemoryRegion)
create_locks region = do
  locks ← ask allocate
  if locks == null
      then (do delete_region region; pure none)
      else (do construct_locks num_locks; create_start (record region { locks = locks }))

-- `none` is `invalid_shared`.
unfoldable pub tm_create : ℕ → ℕ → Tm (Option MemoryRegion)
tm_create size align = do
  self ← ask allocate
  if self == null then pure none else (do region ← new_region self size align; create_locks region)

unfoldable pub tm_destroy : MemoryRegion → Tm (Unit {0})
tm_destroy region = delete_region region

unfoldable pub tm_start : MemoryRegion → ℕ
tm_start region = region.start

unfoldable pub tm_size : MemoryRegion → ℕ
tm_size region = region.size

unfoldable pub tm_align : MemoryRegion → ℕ
tm_align region = region.align
