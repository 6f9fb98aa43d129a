-- ===== src/Grading/Bank/Layout.antt =====
-- The segments of `WorkloadBank` (grading/workload.hpp) with their addresses, and the accounts over all
-- segments.
pub mod Arrays
pub mod Stores
pub mod Money
pub mod Changes
use performant_transactional.Base.{
  ℕ, zero, suc, ◌+◌, ◌-◌, ◌≤◌, ◌<◌, Bool, true, false, ◌||◌, List, [], ◌∷◌, ◌≡◌, ◌≢◌, refl, sym, ap,
  ◌∙◌, ◌⊎◌, inl, inr, ◌==◌, ltb, Bool-cases, length, arith, if◌then◌else◌,
}
use performant_transactional.Process.{update}
use performant_transactional.Grading.Bank.{count_at, next_at, parity_at, accounts_at}
use performant_transactional.Grading.Bank.Audit.{Segment, AccountsAt, IsChain}

pub record Place : Type 0 where
  pub address : ℕ
  pub segment : Segment

unfoldable pub segments : List Place → List Segment
segments [] = []
segments (p ∷ ps) = p.segment ∷ segments ps

abbrev pub head_of : List Place → ℕ
head_of [] = 0
head_of (p ∷ ps) = p.address

unfoldable pub IsLaid : (ℕ → ℕ) → List Place → Type 0
IsLaid m [] = Unit {0}
IsLaid m (p ∷ ps) =
    (p.address ≢ 0)
    × (m (count_at p.address) ≡ length p.segment.accounts)
    × (m (parity_at p.address) ≡ p.segment.parity)
    × AccountsAt m p.address 0 p.segment.accounts
    × (m (next_at p.address) ≡ head_of ps)
    × IsLaid m ps

-- The first address behind a segment.
abbrev pub end_of : Place → ℕ
end_of p = accounts_at p.address (length p.segment.accounts)

-- The segments do not overlap.
unfoldable pub IsClear : ℕ → ℕ → List Place → Type 0
IsClear low high [] = Unit {0}
IsClear low high (p ∷ ps) = ((high ≤ p.address) ⊎ (end_of p ≤ low)) × IsClear low high ps

unfoldable pub IsApart : List Place → Type 0
IsApart [] = Unit {0}
IsApart (p ∷ ps) = IsClear p.address (end_of p) ps × IsApart ps

pub IsLaid-IsChain :
    (m : ℕ → ℕ) (ps : List Place) → IsLaid m ps → IsChain m (head_of ps) (segments ps)
unfolding IsLaid IsChain segments
IsLaid-IsChain m [] l = refl
IsLaid-IsChain m (p ∷ ps) l = (l.0, l.1, l.2, l.3, rw l.4 (IsLaid-IsChain m ps l.5))

pub starts-IsChain :
    (m : ℕ → ℕ) (start : ℕ) (ps : List Place)
    → start ≡ head_of ps
    → IsLaid m ps
    → IsChain m start (segments ps)
starts-IsChain m start ps e l = rw e (IsLaid-IsChain m ps l)

pub length-segments : (ps : List Place) → length (segments ps) ≡ length ps
unfolding segments
length-segments [] = refl
length-segments (p ∷ ps) = ap suc (length-segments ps)

-- The accounts by their index over all segments: address (null if there is none), balance, store.
unfoldable pub get_at : List ℕ → ℕ → ℕ
get_at [] i = 0
get_at (x ∷ xs) zero = x
get_at (x ∷ xs) (suc i) = get_at xs i

unfoldable pub set_at : List ℕ → ℕ → ℕ → List ℕ
set_at [] i v = []
set_at (x ∷ xs) zero v = v ∷ xs
set_at (x ∷ xs) (suc i) v = x ∷ set_at xs i v

unfoldable pub address : List Place → ℕ → ℕ
address [] id = 0
address (p ∷ ps) id =
    let others = address ps (id - length p.segment.accounts) in
    if ltb id (length p.segment.accounts) then accounts_at p.address id else others

unfoldable pub balance : List Place → ℕ → ℕ
balance [] id = 0
balance (p ∷ ps) id =
    let others = balance ps (id - length p.segment.accounts) in
    if ltb id (length p.segment.accounts) then get_at p.segment.accounts id else others

abbrev pub set_in : Place → ℕ → ℕ → Place
set_in p i v = record p { segment = record p.segment { accounts = set_at p.segment.accounts i v } }

unfoldable pub set_balance : List Place → ℕ → ℕ → List Place
set_balance [] id v = []
set_balance (p ∷ ps) id v =
    let others = set_balance ps (id - length p.segment.accounts) v in
    if ltb id (length p.segment.accounts) then set_in p id v ∷ ps else p ∷ others
