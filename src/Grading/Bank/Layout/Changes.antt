-- ===== src/Grading/Bank/Layout/Changes.antt =====
-- Changes at the end of the list of segments of `WorkloadBank` (grading/workload.hpp), each with room
-- for `capacity` accounts.
use performant_transactional.Base.{
  ℕ, ◌+◌, ◌%◌, ◌≤◌, ◌<◌, Bool, true, false, ◌||◌, List, [], ◌∷◌, ◌≡◌, refl, sym, ◌∙◌, ◌⊎◌, inl, inr,
  length, arith,
}
use performant_transactional.Grading.Shared.{word_mod}
use performant_transactional.Grading.Bank.{count_at, next_at, parity_at, accounts_at}
use performant_transactional.Grading.Bank.Audit.{
  AccountsAt, has_negative, has_debt, population, money,
}
use performant_transactional.Grading.Bank.Layout.{Place, segments, head_of, IsLaid}

pub ||_left : (a b : Bool) → (a || b) ≡ false → a ≡ false
||_left false b h = refl
||_left true b h = h

pub ||_right : (a b : Bool) → (a || b) ≡ false → b ≡ false
||_right false b h = h
||_right true b h = absurd cc

pub accounts-same :
    (m m' : ℕ → ℕ) (start i : ℕ) (xs : List ℕ)
    → ((a : ℕ) → accounts_at start i ≤ a → a < accounts_at start (i + length xs) → m' a ≡ m a)
    → AccountsAt m start i xs
    → AccountsAt m' start i xs
unfolding AccountsAt
accounts-same m m' start i [] s h = tt
accounts-same m m' start i (v ∷ xs) s h = (
  s (accounts_at start i) (omega arith) (omega arith) ∙ h.0,
  accounts-same m m' start (i + 1) xs (λ a l l'. s a (omega arith) (omega arith)) h.1,
)

-- The last segment, and the one before it.
abbrev pub last_place : Place → List Place → Place
last_place p [] = p
last_place p (q ∷ ps) = last_place q ps

abbrev pub before_last : Place → Place → List Place → Place
before_last p q [] = p
before_last p q (r ∷ ps) = before_last q r ps

pub IsLaid-last :
    (m : ℕ → ℕ) (p : Place) (ps : List Place) → IsLaid m (p ∷ ps) → IsLaid m (last_place p ps ∷ [])
unfolding IsLaid
IsLaid-last m p [] l = l
IsLaid-last m p (q ∷ ps) l = IsLaid-last m q ps l.5

pub IsLaid-before_last :
    (m : ℕ → ℕ) (p q : Place) (ps : List Place)
    → IsLaid m (p ∷ q ∷ ps)
    → IsLaid m (before_last p q ps ∷ last_place q ps ∷ [])
unfolding IsLaid
IsLaid-before_last m p q [] l = l
IsLaid-before_last m p q (r ∷ ps) l = IsLaid-before_last m q r ps l.5

pub last-population :
    (p : Place) (ps : List Place)
    → length (last_place p ps).segment.accounts ≤ population (segments (p ∷ ps))
unfolding population segments
last-population p [] = omega arith
last-population p (q ∷ ps) = let h = last-population q ps in omega arith

-- `capacity` is the bank's nbaccounts.
module _ (capacity : ℕ) where
  unfoldable pub IsApartFrom : ℕ → List ℕ → Type 0
  IsApartFrom a [] = Unit {0}
  IsApartFrom a (x ∷ xs) =
      ((accounts_at a capacity ≤ x) ⊎ (accounts_at x capacity ≤ a)) × IsApartFrom a xs

  unfoldable pub IsOutside : ℕ → List ℕ → Type 0
  IsOutside a [] = Unit {0}
  IsOutside a (x ∷ xs) = ((a < x) ⊎ (accounts_at x capacity ≤ a)) × IsOutside a xs

  abbrev pub addresses : List Place → List ℕ
  addresses [] = []
  addresses (p ∷ ps) = p.address ∷ addresses ps

  -- The segments have accounts, no more than there is room for, and do not overlap, nor with `extra`.
  unfoldable pub IsSpread : List ℕ → List Place → Type 0
  IsSpread extra [] = Unit {0}
  IsSpread extra (p ∷ ps) =
      (0 < length p.segment.accounts)
      × (length p.segment.accounts ≤ capacity)
      × IsApartFrom p.address (addresses ps)
      × IsApartFrom p.address extra
      × IsSpread extra ps

  -- Addresses in a segment are outside those that it is apart from.
  pub apart-IsOutside :
      (a b : ℕ) (xs : List ℕ)
      → a ≤ b
      → b < accounts_at a capacity
      → IsApartFrom a xs
      → IsOutside b xs
  unfolding IsApartFrom IsOutside
  apart-IsOutside a b [] l h c = tt
  apart-IsOutside a b (x ∷ xs) l h c = (
    elim c.0 [ inl k ↦ inl (omega arith) | inr k ↦ inr (omega arith) ],
    apart-IsOutside a b xs l h c.1,
  )

  -- From the words `m` with the segments `ps` to `m'` with `qs`: `d` accounts less and `e` more, `x`
  -- less and `y` more of the money in words, and nothing elsewhere but in `extra`.
  pub record Change (extra : List ℕ) (d e x y : ℕ) (m m' : ℕ → ℕ) (ps qs : List Place)
      : Type 0 where
    pub laid : IsLaid m' qs
    pub head : head_of qs ≡ head_of ps
    pub frame : (a : ℕ) → IsOutside a (addresses ps) → IsOutside a extra → m' a ≡ m a
    pub size : length (segments qs) ≤ length (segments ps) + 1
    pub people : population (segments qs) + d ≡ population (segments ps) + e
    pub wealth : (money (segments qs) + x) % word_mod ≡ (money (segments ps) + y) % word_mod
    pub solvent : has_debt (segments ps) ≡ false → has_debt (segments qs) ≡ false

  -- A segment in front of a change.
  pub Change-∷ :
      (extra : List ℕ) (d e x y : ℕ) (m m' : ℕ → ℕ) (p : Place) (ps qs : List Place)
      → IsSpread extra (p ∷ ps)
      → IsLaid m (p ∷ ps)
      → Change extra d e x y m m' ps qs
      → Change extra d e x y m m' (p ∷ ps) (p ∷ qs)
  unfolding IsSpread IsLaid IsOutside population money has_debt segments
  Change-∷ extra d e x y m m' p ps qs s l c =
      let same : (a : ℕ) → p.address ≤ a → a < accounts_at p.address capacity → m' a ≡ m a =
        λ a k h.
          c.frame a (apart-IsOutside p.address a (addresses ps) k h s.2)
            (apart-IsOutside p.address a extra k h s.3) in
      let people = c.people in
      let wealth = c.wealth in
      let size = c.size in
      record {
        laid = (
          l.0,
          same (count_at p.address) (omega arith) (omega arith) ∙ l.1,
          same (parity_at p.address) (omega arith) (omega arith) ∙ l.2,
          accounts-same m m' p.address 0 p.segment.accounts
              (λ a k h. same a (omega arith) (omega arith)) l.3,
          same (next_at p.address) (omega arith) (omega arith) ∙ l.4 ∙ sym c.head,
          c.laid,
        );
        head = refl;
        frame = λ a o o'. c.frame a o.1 o';
        size = omega arith;
        people = omega arith;
        wealth = omega arith;
        solvent = λ h.
            rw (||_left (has_negative p.segment.accounts) (has_debt (segments ps)) h)
              (c.solvent (||_right (has_negative p.segment.accounts) (has_debt (segments ps)) h));
      }

  pub IsSpread-last :
      (extra : List ℕ) (p : Place) (ps : List Place)
      → IsSpread extra (p ∷ ps)
      → IsSpread extra (last_place p ps ∷ [])
  unfolding IsSpread
  IsSpread-last extra p [] s = s
  IsSpread-last extra p (q ∷ ps) s = IsSpread-last extra q ps s.4

  pub IsSpread-before_last :
      (extra : List ℕ) (p q : Place) (ps : List Place)
      → IsSpread extra (p ∷ q ∷ ps)
      → IsSpread extra (before_last p q ps ∷ last_place q ps ∷ [])
  unfolding IsSpread
  IsSpread-before_last extra p q [] s = s
  IsSpread-before_last extra p q (r ∷ ps) s = IsSpread-before_last extra q r ps s.4

  -- A change of the last segment, or of the last two, is one of the list.
  module _ (extra : List ℕ) (d e x y : ℕ) (m m' : ℕ → ℕ) where
    abbrev pub Changed : List Place → Type 0
    Changed ps = (qs : List Place) × Change extra d e x y m m' ps qs

    pub Change-last :
        (p : Place) (ps : List Place)
        → IsSpread extra (p ∷ ps)
        → IsLaid m (p ∷ ps)
        → Changed (last_place p ps ∷ [])
        → Changed (p ∷ ps)
    unfolding IsSpread IsLaid
    Change-last p [] s l c = c
    Change-last p (q ∷ ps) s l c =
        let (qs, c') = Change-last q ps s.4 l.5 c in
        (p ∷ qs, Change-∷ extra d e x y m m' p (q ∷ ps) qs s l c')

    pub Change-before_last :
        (p q : Place) (ps : List Place)
        → IsSpread extra (p ∷ q ∷ ps)
        → IsLaid m (p ∷ q ∷ ps)
        → Changed (before_last p q ps ∷ last_place q ps ∷ [])
        → Changed (p ∷ q ∷ ps)
    unfolding IsSpread IsLaid
    Change-before_last p q [] s l c = c
    Change-before_last p q (r ∷ ps) s l c =
        let (qs, c') = Change-before_last q r ps s.4 l.5 c in
        (p ∷ qs, Change-∷ extra d e x y m m' p (q ∷ r ∷ ps) qs s l c')
