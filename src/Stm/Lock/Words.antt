-- ===== src/Stm/Lock/Words.antt =====
-- The words of the locks: what each method does to the version and to the lock bit.
use performant_transactional.Base.{ℕ, ◌^◌, ◌≤◌, ◌<◌, ◌≡◌, ◌↔◌, true, false, arith}
use performant_transactional.Stm.State.{word_mod}
use performant_transactional.Stm.Lock.{
  expected_word, locked_word, unlocked_word, version_of, is_locked_word, version_word,
}

-- Taking the lock sets the bit and keeps the version, and the exchange that takes it expects
-- exactly the words with the bit clear.
pub locked_word_lem :
    (w : ℕ)
    → (is_locked_word (locked_word (expected_word w)) ≡ true)
      × (version_of (locked_word (expected_word w)) ≡ version_of w)
      × ((expected_word w ≡ w) ↔ (is_locked_word w ≡ false))
unfolding is_locked_word locked_word expected_word version_of
locked_word_lem w = (ground arith, omega arith, (λ e. ground arith, λ e. ground arith))

-- `setVersion` and then `getVersion`, below the width of the version field; the lock is free.
pub version_of-version_word :
    (v : ℕ)
    → v < 2 ^ 63
    → (version_of (version_word v) ≡ v) × (is_locked_word (version_word v) ≡ false)
unfolding version_of version_word is_locked_word
version_of-version_word v h = (omega arith, ground arith)

-- `unlock` clears the bit, and keeps the version exactly while the version fits in 31 bits.
pub unlocked_word_lem :
    (w : ℕ)
    → (is_locked_word (unlocked_word w) ≡ false)
      × ((version_of (unlocked_word w) ≡ version_of w) ↔ (version_of w < 2 ^ 31))
unfolding is_locked_word unlocked_word version_of
unlocked_word_lem w = (ground arith, (λ e. omega arith, λ h. omega arith))

pub unlocked_word-le : (w : ℕ) → version_of (unlocked_word w) ≤ version_of w
unfolding unlocked_word version_of
unlocked_word-le w = omega arith

pub locked_version : (w : ℕ) → version_of (locked_word (expected_word w)) ≡ version_of w
locked_version w = (locked_word_lem w).1

pub locked-lt : (w : ℕ) → w < word_mod → locked_word (expected_word w) < word_mod
unfolding locked_word expected_word
locked-lt w h = omega arith

pub unlocked-lt : (w : ℕ) → unlocked_word w < word_mod
unfolding unlocked_word
unlocked-lt w = omega arith

pub version_word-le : (v : ℕ) → version_of (version_word v) ≤ v
unfolding version_of version_word
version_word-le v = omega arith

pub version_word-lt : (v : ℕ) → version_word v < word_mod
unfolding version_word
version_word-lt v = omega arith
