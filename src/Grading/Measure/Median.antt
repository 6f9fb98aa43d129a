-- ===== src/Grading/Measure/Median.antt =====
-- The median of the times that `measure` (grading/grading.cpp) takes, told by counting.
use performant_transactional.Base.{
  ℕ, zero, suc, ◌+◌, ◌/◌, ◌<◌, ◌≤◌, List, [], ◌∷◌, ◌≡◌, refl, ap, ◌∙◌, Bool, true, false, some, leb,
  ltb, Bool-cases, inl, inr, length, arith, if◌then◌else◌,
}
use performant_transactional.Grading.Measure.{nth, insert, sort, median}

-- How many elements are less than `t`, and how many are not greater.
unfoldable pub number_below : ℕ → List ℕ → ℕ
number_below t [] = 0
number_below t (x ∷ xs) = (if ltb x t then 1 else 0) + number_below t xs

unfoldable pub number_upto : ℕ → List ℕ → ℕ
number_upto t [] = 0
number_upto t (x ∷ xs) = (if leb x t then 1 else 0) + number_upto t xs

-- `t` is an element of which `k` stand before it in order: at most `k` are less, more than `k` are not
-- greater.
unfoldable pub IsNthSmallest : ℕ → ℕ → List ℕ → Type 0
IsNthSmallest k t xs = (number_below t xs ≤ k) × (k < number_upto t xs)

number_below-insert :
    (t x : ℕ) (ys : List ℕ) → number_below t (insert x ys) ≡ number_below t (x ∷ ys)
unfolding number_below insert
number_below-insert t x [] = refl
number_below-insert t x (y ∷ ys) = elim (Bool-cases (leb x y)) [
  | inl e ↦ rw e refl
  | inr e ↦ let h = number_below-insert t x ys in rw e (omega arith)
]

number_upto-insert : (t x : ℕ) (ys : List ℕ) → number_upto t (insert x ys) ≡ number_upto t (x ∷ ys)
unfolding number_upto insert
number_upto-insert t x [] = refl
number_upto-insert t x (y ∷ ys) = elim (Bool-cases (leb x y)) [
  | inl e ↦ rw e refl
  | inr e ↦ let h = number_upto-insert t x ys in rw e (omega arith)
]

length-insert : (x : ℕ) (ys : List ℕ) → length (insert x ys) ≡ suc (length ys)
unfolding insert
length-insert x [] = refl
length-insert x (y ∷ ys) = elim (Bool-cases (leb x y)) [
  | inl e ↦ rw e refl
  | inr e ↦ rw e (ap suc (length-insert x ys))
]

number_below-sort : (t : ℕ) (xs : List ℕ) → number_below t (sort xs) ≡ number_below t xs
unfolding number_below sort
number_below-sort t [] = refl
number_below-sort t (x ∷ xs) =
    number_below-insert t x (sort xs)
    ∙ ap (λ n. (if ltb x t then 1 else 0) + n) (number_below-sort t xs)

number_upto-sort : (t : ℕ) (xs : List ℕ) → number_upto t (sort xs) ≡ number_upto t xs
unfolding number_upto sort
number_upto-sort t [] = refl
number_upto-sort t (x ∷ xs) =
    number_upto-insert t x (sort xs)
    ∙ ap (λ n. (if leb x t then 1 else 0) + n) (number_upto-sort t xs)

length-sort : (xs : List ℕ) → length (sort xs) ≡ length xs
unfolding sort
length-sort [] = refl
length-sort (x ∷ xs) = length-insert x (sort xs) ∙ ap suc (length-sort xs)

-- In order, from `low` on.
unfoldable IsSorted : ℕ → List ℕ → Type 0
IsSorted low [] = Unit {0}
IsSorted low (x ∷ xs) = (low ≤ x) × IsSorted x xs

insert-IsSorted : (low x : ℕ) (ys : List ℕ) → low ≤ x → IsSorted low ys → IsSorted low (insert x ys)
unfolding IsSorted insert
insert-IsSorted low x [] h s = (h, tt)
insert-IsSorted low x (y ∷ ys) h s = elim (Bool-cases (leb x y)) [
  | inl e ↦ rw e (h, (before x y e, s.1))
  | inr e ↦ rw e (s.0, insert-IsSorted y x ys (behind x y e) s.1)
]
  where
    before : (a b : ℕ) → leb a b ≡ true → a ≤ b
    before a b e = ground arith

    behind : (a b : ℕ) → leb a b ≡ false → b ≤ a
    behind a b e = ground arith

sort-IsSorted : (xs : List ℕ) → IsSorted 0 (sort xs)
unfolding IsSorted sort
sort-IsSorted [] = tt
sort-IsSorted (x ∷ xs) = insert-IsSorted 0 x (sort xs) (omega arith) (sort-IsSorted xs)

none_below : (low t : ℕ) (xs : List ℕ) → t ≤ low → IsSorted low xs → number_below t xs ≡ 0
unfolding IsSorted number_below
none_below low t [] h s = refl
none_below low t (x ∷ xs) h s =
    let rest = none_below x t xs (omega arith) s.1 in rw (above x t (omega arith), rest) refl
  where
    above : (x t : ℕ) → t ≤ x → ltb x t ≡ false
    above x t h = ground arith

nth-IsSorted :
    (k low : ℕ) (xs : List ℕ)
    → k < length xs
    → IsSorted low xs
    → (t : ℕ) × (nth xs k ≡ some t) × (low ≤ t) × IsNthSmallest k t xs
unfolding IsSorted IsNthSmallest number_below number_upto
nth-IsSorted k low [] h s = absurd (omega arith)
nth-IsSorted zero low (x ∷ xs) h s = (
  x,
  refl,
  s.0,
  (rw (unequal x, none_below x x xs (omega arith) s.1) (omega arith), rw (itself x) (omega arith)),
)
  where
    unequal : (x : ℕ) → ltb x x ≡ false
    unequal x = ground arith

    itself : (x : ℕ) → leb x x ≡ true
    itself x = ground arith
nth-IsSorted (suc k) low (x ∷ xs) h s =
    let (t, e, l, n) = nth-IsSorted k x xs (omega arith) s.1 in
    (t, e, omega arith, (at_most (ltb x t) _ k n.0, rw (reached x t l) (omega arith)))
  where
    at_most : (b : Bool) (n k : ℕ) → n ≤ k → (if b then 1 else 0) + n ≤ suc k
    at_most true n k h = omega arith
    at_most false n k h = omega arith

    reached : (x t : ℕ) → x ≤ t → leb x t ≡ true
    reached x t h = ground arith

half : (n : ℕ) → 0 < n → n / 2 < n
half n h = omega arith

-- The median is an element that half of the elements precede.
pub median_lem :
    (nbrepeats : ℕ) (times : List ℕ)
    → 0 < nbrepeats
    → length times ≡ nbrepeats
    → (t : ℕ) × (median nbrepeats times ≡ some t) × IsNthSmallest (nbrepeats / 2) t times
unfolding median IsNthSmallest
median_lem n times h e =
    let room = half n h in
    let size = length-sort times in
    let (t, found, l, (below, upto)) =
      nth-IsSorted (n / 2) 0 (sort times) (omega arith) (sort-IsSorted times) in
    (t, found, (rw (number_below-sort t times) at below, rw (number_upto-sort t times) at upto))
