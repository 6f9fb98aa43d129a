-- ===== src/Stm/State.antt =====
-- What the threads share (394984/data-structures.hpp, the globals of 394984/tm.cpp), and the
-- atomic actions by which they reach it. A `memcpy` is one action for each byte.
use performant_transactional.Base.{
  ℕ, zero, suc, ◌+◌, ◌%◌, ◌^◌, Bool, true, false, ◌&&◌, List, [], ◌∷◌, ◌++◌, ◌==◌, if◌then◌else◌,
}
use performant_transactional.Process.{Prog, ret, act, ◌>>=◌, ◌>>◌, update}

-- `word` (uintptr_t) and `version` (uint64_t) are numbers below this.
abbrev pub word_mod : ℕ
word_mod = 2 ^ 64

-- `NUM_LOCKS`
abbrev pub num_locks : ℕ
num_locks = 10000

-- `nullptr`, and what a failed allocation returns.
abbrev pub null : ℕ
null = 0

-- `luck` and `blocks` stand for the environment: which of the next calls of
-- `compare_exchange_weak` fail for no reason, and what the next allocations return.
pub record State : Type 0 where
  pub gvc : ℕ
  pub locks : ℕ → ℕ  -- `version_and_lock` of each lock of the region
  pub mem : ℕ → ℕ  -- the byte at each shared address
  pub seg_list : List ℕ  -- the region's list
  pub luck : List Bool
  pub blocks : List ℕ
  pub freed : List ℕ  -- what was given to `free` or `delete`, the latest first

pub data Act : Type 0 where
  load_gvc : Act
  add_gvc : ℕ → Act
  load_lock : ℕ → Act
  cas_lock : ℕ → ℕ → ℕ → Act
  store_lock : ℕ → ℕ → Act
  load_byte : ℕ → Act
  store_byte : ℕ → ℕ → Act
  allocate : Act
  release : ℕ → Act
  load_segs : Act
  clear_segs : Act
  splice : List ℕ → Act

abbrev pub Res : Act → Type 0
Res load_gvc = ℕ
Res (add_gvc n) = ℕ
Res (load_lock l) = ℕ
Res (cas_lock l expected desired) = Bool
Res (store_lock l w) = Unit {0}
Res (load_byte a) = ℕ
Res (store_byte a b) = Unit {0}
Res allocate = ℕ
Res (release p) = Unit {0}
Res load_segs = List ℕ
Res clear_segs = Unit {0}
Res (splice l) = Unit {0}

-- Whether the next weak exchange is spared a spurious failure.
abbrev pub lucky : List Bool → Bool
lucky [] = true
lucky (b ∷ bs) = b

abbrev pub rest {ℓ} : {A : Type ℓ} → List A → List A
rest [] = []
rest (x ∷ xs) = xs

abbrev pub next_block : List ℕ → ℕ
next_block [] = null
next_block (p ∷ ps) = p

unfoldable pub exec : (a : Act) → State → Res a × State
exec load_gvc s = (s.gvc, s)
exec (add_gvc n) s = (s.gvc, record s { gvc = (s.gvc + n) % word_mod })
exec (load_lock l) s = (s.locks l, s)
exec (cas_lock l expected desired) s =
    if s.locks l == expected && lucky s.luck
    then (true, record s { locks = update s.locks l desired; luck = rest s.luck })
    else (false, record s { luck = rest s.luck })
exec (store_lock l w) s = (tt, record s { locks = update s.locks l w })
exec (load_byte a) s = (s.mem a, s)
exec (store_byte a b) s = (tt, record s { mem = update s.mem a b })
exec allocate s = (next_block s.blocks, record s { blocks = rest s.blocks })
exec (release p) s = (tt, if p == null then s else record s { freed = p ∷ s.freed })
exec load_segs s = (s.seg_list, s)
exec clear_segs s = (tt, record s { seg_list = [] })
exec (splice l) s = (tt, record s { seg_list = s.seg_list ++ l })

abbrev pub Tm : Type 0 → Type 0
Tm A = Prog Act Res A

abbrev pub pure : {A : Type 0} → A → Tm A
pure a = ret a

abbrev pub ask : (a : Act) → Tm (Res a)
ask a = act a ret

-- `memcpy` out of shared memory: the bytes that were read.
unfoldable pub load_bytes : ℕ → ℕ → Tm (List ℕ)
load_bytes a zero = pure []
load_bytes a (suc n) = do b ← ask (load_byte a); bs ← load_bytes (a + 1) n; pure (b ∷ bs)

-- `memcpy` into shared memory.
unfoldable pub store_bytes : ℕ → List ℕ → Tm (Unit {0})
store_bytes a [] = pure tt
store_bytes a (b ∷ bs) = do ask (store_byte a b); store_bytes (a + 1) bs

-- `memset(a, 0, n)`
unfoldable pub clear_bytes : ℕ → ℕ → Tm (Unit {0})
clear_bytes a zero = pure tt
clear_bytes a (suc n) = do ask (store_byte a 0); clear_bytes (a + 1) n

-- `for (auto& seg : list) free(seg);`
unfoldable pub release_all : List ℕ → Tm (Unit {0})
release_all [] = pure tt
release_all (p ∷ ps) = do ask (release p); release_all ps
