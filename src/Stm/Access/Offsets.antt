-- ===== src/Stm/Access/Offsets.antt =====
-- The loop `for (size_t i = 0; i < size; i += word_size)` of tm_read and tm_write.
use performant_transactional.Base.{
  ℕ, zero, suc, ◌+◌, ◌*◌, ◌≤◌, ◌<◌, ◌≡◌, refl, List, [], ◌∷◌, ltb, if◌then◌else◌, arith,
}

unfoldable pub offsets_from : ℕ → ℕ → ℕ → ℕ → List ℕ
offsets_from zero i size word_size = []
offsets_from (suc fuel) i size word_size =
    let next = offsets_from fuel (i + word_size) size word_size in
    if ltb i size then i ∷ next else []

-- `size` rounds are enough for a positive word size.
unfoldable pub offsets : ℕ → ℕ → List ℕ
unfolding offsets_from
offsets size word_size = offsets_from size 0 size word_size

-- `n` offsets from `i` on, `word_size` apart.
abbrev pub every : ℕ → ℕ → ℕ → List ℕ
every zero i word_size = []
every (suc n) i word_size = i ∷ every n (i + word_size) word_size

offsets_from-every :
    (fuel n i size word_size : ℕ)
    → 0 < word_size
    → n ≤ fuel
    → size ≡ i + n * word_size
    → offsets_from fuel i size word_size ≡ every n i word_size
unfolding offsets_from
offsets_from-every zero zero i size word_size pos h e = refl
offsets_from-every zero (suc n) i size word_size pos h e = absurd (omega arith)
offsets_from-every (suc fuel) zero i size word_size pos h e = ground arith
offsets_from-every (suc fuel) (suc n) i size word_size pos h e = ground (
  arith,
  offsets_from-every fuel n (i + word_size) size word_size pos (omega arith) (grind arith),
)

-- The loop meets every word of an access that is a multiple of the alignment, and no other.
pub offsets-every :
    (n word_size : ℕ) → 0 < word_size → offsets (n * word_size) word_size ≡ every n 0 word_size
unfolding offsets
offsets-every n word_size pos =
    offsets_from-every (n * word_size) n 0 (n * word_size) word_size pos (grind arith) (omega arith)
