-- ===== src/Stm/Lock.antt =====
-- `VersionedWriteLock` of 394984/data-structures.cpp: a version and a lock bit in one word.
-- `w & ~1` is `w / 2 * 2`, `w | 1` is `w / 2 * 2 + 1`, `w >> 1` is `w / 2`, `w & 1` is `w % 2`.
pub mod Words
use performant_transactional.Base.{ℕ, ◌+◌, ◌*◌, ◌/◌, ◌%◌, ◌^◌, Bool, ◌==◌}
use performant_transactional.Process.{Prog, ret, act, ◌>>=◌, ◌>>◌}
use performant_transactional.Stm.State.{
  word_mod, num_locks, Act, cas_lock, load_lock, store_lock, Tm, pure, ask,
}

-- `region->locks[(word)addr % NUM_LOCKS]`
abbrev pub stripe : ℕ → ℕ
stripe a = a % num_locks

-- The constructor's `version_and_lock{0}`.
abbrev pub initial_word : ℕ
initial_word = 0

unfoldable pub expected_word : ℕ → ℕ
expected_word w = w / 2 * 2

unfoldable pub locked_word : ℕ → ℕ
locked_word w = w / 2 * 2 + 1

-- `current & ~1u`: the mask is an `unsigned int`, so it has 32 bits.
unfoldable pub unlocked_word : ℕ → ℕ
unlocked_word w = w % 2 ^ 32 / 2 * 2

unfoldable pub version_of : ℕ → ℕ
version_of w = w / 2

unfoldable pub is_locked_word : ℕ → Bool
is_locked_word w = w % 2 == 1

-- `v << 1 | 0`
unfoldable pub version_word : ℕ → ℕ
version_word v = v * 2 % word_mod

unfoldable pub lock : ℕ → Tm Bool
lock l = do
  current ← ask (load_lock l)
  let expected = expected_word current
  let desired = locked_word expected
  ask (cas_lock l expected desired)

unfoldable pub unlock : ℕ → Tm (Unit {0})
unlock l = do current ← ask (load_lock l); ask (store_lock l (unlocked_word current))

unfoldable pub get_version : ℕ → Tm ℕ
get_version l = do w ← ask (load_lock l); pure (version_of w)

unfoldable pub is_locked : ℕ → Tm Bool
is_locked l = do w ← ask (load_lock l); pure (is_locked_word w)

unfoldable pub set_version : ℕ → ℕ → Tm (Unit {0})
set_version l v = ask (store_lock l (version_word v))
