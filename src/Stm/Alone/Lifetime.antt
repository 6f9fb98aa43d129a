-- ===== src/Stm/Alone/Lifetime.antt =====
-- tm_create and tm_destroy run alone: what is set up, and what is freed.
use performant_transactional.Base.{
  ℕ, zero, suc, ◌+◌, ◌≡◌, ◌≢◌, refl, Option, none, some, List, [], ◌∷◌, arith, ◌==◌, ltb, leb,
  if◌then◌else◌, ◌∙◌, ap, ◌&&◌,
}
use performant_transactional.Process.{ret, ◌>>=◌, update}
use performant_transactional.Stm.State.{
  State, Act, null, num_locks, exec, ask, clear_bytes, release_all,
}
use performant_transactional.Stm.Lock.{initial_word}
use performant_transactional.Stm.Region.{
  MemoryRegion, new_region, delete_region, construct_locks, create_start, create_locks, tm_create,
  tm_destroy,
}
use performant_transactional.Stm.Alone.{alone, alone-then, alone-else}
use performant_transactional.Stm.Alone.Bytes.{log_free, log_all, exec-release, alone-release_all}

-- Memory with `n` zeros from `a` on.
unfoldable pub zeroed : (ℕ → ℕ) → ℕ → ℕ → ℕ → ℕ
zeroed m a zero = m
zeroed m a (suc n) = zeroed (update m a 0) (a + 1) n

pub zeroed-at :
    (m : ℕ → ℕ) (a n x : ℕ) → zeroed m a n x ≡ (if leb a x && ltb x (a + n) then 0 else m x)
unfolding zeroed
zeroed-at m a zero x = ground arith
zeroed-at m a (suc n) x = zeroed-at (update m a 0) (a + 1) n x ∙ ground arith

pub alone-clear_bytes :
    (a n : ℕ) (s : State) → alone (clear_bytes a n) s ≡ (tt, record s { mem = zeroed s.mem a n })
unfolding clear_bytes zeroed exec
alone-clear_bytes a zero s = refl
alone-clear_bytes a (suc n) s = alone-clear_bytes (a + 1) n (record s { mem = update s.mem a 0 })

-- The words of the first `n` locks as their constructor leaves them.
unfoldable pub constructed : ℕ → (ℕ → ℕ) → ℕ → ℕ
constructed zero f = f
constructed (suc n) f = update (constructed n f) n initial_word

pub constructed-at : (n : ℕ) (f : ℕ → ℕ) (l : ℕ) → constructed n f l ≡ (if ltb l n then 0 else f l)
unfolding constructed
constructed-at zero f l = ground arith
constructed-at (suc n) f l = ground (arith, constructed-at n f l)

alone-construct_locks :
    (n : ℕ) (s : State)
    → alone (construct_locks n) s ≡ (tt, record s { locks = constructed n s.locks })
unfolding construct_locks constructed exec
alone-construct_locks zero s = refl
alone-construct_locks (suc n) s =
    alone-then (construct_locks n) _ s _ tt _ (alone-construct_locks n s) refl

-- What the destructor of a region frees, after its segments: locks, first segment, itself.
unfoldable pub log_region : MemoryRegion → List ℕ → List ℕ
log_region region freed = log_free region.self (log_free region.start (log_free region.locks freed))

pub alone-delete_region :
    (region : MemoryRegion) (s : State)
    → alone (delete_region region) s
      ≡ (tt, record s { seg_list = []; freed = log_region region (log_all s.seg_list s.freed) })
unfolding delete_region log_region exec log_free
alone-delete_region region s =
    alone-then (release_all s.seg_list) _ s _ tt _ (alone-release_all s.seg_list s) (ground arith)

-- The state in which the next allocations return `blocks`.
abbrev pub given : List ℕ → State → State
given blocks s = record s { blocks = blocks }

abbrev pub region_of : ℕ → ℕ → ℕ → ℕ → ℕ → MemoryRegion
region_of size align self locks start = record {
  self = self;
  size = size;
  align = align;
  locks = locks;
  start = start;
}

-- The state in which the locks are constructed.
abbrev pub constructing : State → List ℕ → State
constructing s blocks = record s {
  blocks = blocks;
  seg_list = [];
  locks = constructed num_locks s.locks;
}

module _ (size align self locks : ℕ) (s : State) (rest : List ℕ) (self_ne : self ≢ null)
    (locks_ne : locks ≢ null) where
  create_until :
      (start : ℕ) (r : Option MemoryRegion × State)
      → alone (create_start (region_of size align self locks null)) (constructing s (start ∷ rest))
        ≡ r
      → alone (tm_create size align) (given (self ∷ locks ∷ start ∷ rest) s) ≡ r
  unfolding tm_create create_locks new_region exec
  create_until start r h = alone-else (self == null) _ _ _ r (ground arith) (
      alone-else (locks == null) _ _ _ r (ground arith)
        (alone-then (construct_locks num_locks) _ _ _ tt r (alone-construct_locks num_locks _) h))

  -- With memory for all three, the region has the size and the alignment that were asked for, its
  -- first segment is zero, its locks are free at version 0, and nothing has been freed.
  pub tm_create_lem :
      (start : ℕ)
      → start ≢ null
      → alone (tm_create size align) (given (self ∷ locks ∷ start ∷ rest) s) ≡ (
        some (region_of size align self locks start),
        record (constructing s rest) { mem = zeroed s.mem start size },
      )
  unfolding create_start exec
  tm_create_lem start start_ne = create_until start _ (
      alone-else (start == null) _ _ _ _ (ground arith)
        (alone-then (clear_bytes start size) _ _ _ tt _ (alone-clear_bytes start size _) refl))

  freed_twice :
      log_region (region_of size align self locks null) (log_all [] (log_free locks s.freed))
      ≡ self ∷ locks ∷ locks ∷ s.freed
  unfolding log_region log_all log_free
  freed_twice = ground arith

  -- Without memory for the first segment, tm_create frees the array of the locks twice.
  pub tm_create_double_free :
      alone (tm_create size align) (given (self ∷ locks ∷ null ∷ rest) s)
      ≡ (none, record (constructing s rest) { freed = self ∷ locks ∷ locks ∷ s.freed })
  unfolding create_start exec
  tm_create_double_free = create_until null _ (
      alone-then (ask (Act.release locks))
        (λ _. delete_region (region_of size align self locks null) >>= λ _. ret none) _ _ tt _
        (exec-release locks (constructing s rest))
        (alone-then (delete_region (region_of size align self locks null)) (λ _. ret none)
          (record (constructing s rest) { freed = log_free locks s.freed }) _ tt _
          (alone-delete_region (region_of size align self locks null) _)
          (ap (λ freed. (none, record (constructing s rest) { freed = freed })) freed_twice)))

log_region_lem :
    (region : MemoryRegion) (freed : List ℕ)
    → region.self ≢ null
    → region.locks ≢ null
    → region.start ≢ null
    → log_region region freed ≡ region.self ∷ region.start ∷ region.locks ∷ freed
unfolding log_region log_free
log_region_lem region freed a b c = ground arith

-- Destroying a region frees its segments, its locks, its first segment and itself, in this order.
pub tm_destroy_lem :
    (region : MemoryRegion) (s : State)
    → region.self ≢ null
    → region.locks ≢ null
    → region.start ≢ null
    → alone (tm_destroy region) s ≡ (
      tt,
      record s {
        seg_list = [];
        freed = region.self ∷ region.start ∷ region.locks ∷ log_all s.seg_list s.freed;
      },
    )
unfolding tm_destroy
tm_destroy_lem region s self_ne locks_ne start_ne =
    alone-delete_region region s
    ∙ ap (λ freed. (tt, record s { seg_list = []; freed = freed }))
        (log_region_lem region (log_all s.seg_list s.freed) self_ne locks_ne start_ne)
