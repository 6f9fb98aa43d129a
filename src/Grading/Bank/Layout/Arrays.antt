-- ===== src/Grading/Bank/Layout/Arrays.antt =====
-- A store to one account of a segment of `WorkloadBank` (grading/workload.hpp).
use performant_transactional.Base.{
  ℕ, zero, suc, ◌+◌, ◌≤◌, ◌<◌, List, [], ◌∷◌, ◌≡◌, ◌≢◌, refl, ap, ◌∙◌, ◌⊎◌, inl, inr, length, arith,
}
use performant_transactional.Process.{update}
use performant_transactional.Grading.Bank.{accounts_at}
use performant_transactional.Grading.Bank.Audit.{AccountsAt}
use performant_transactional.Grading.Bank.Layout.{get_at, set_at}

pub update_other : (m : ℕ → ℕ) (a v b : ℕ) → a ≢ b → update m a v b ≡ m b
update_other m a v b h = ground arith

pub update_same : (m : ℕ → ℕ) (a v : ℕ) → update m a v a ≡ v
update_same m a v = ground arith

pub update_two : (m : ℕ → ℕ) (a v b u c : ℕ) → a ≢ c → b ≢ c → update (update m a v) b u c ≡ m c
update_two m a v b u c h h' = ground arith

pub length-set_at : (xs : List ℕ) (i v : ℕ) → length (set_at xs i v) ≡ length xs
unfolding set_at
length-set_at [] i v = refl
length-set_at (x ∷ xs) zero v = refl
length-set_at (x ∷ xs) (suc i) v = ap suc (length-set_at xs i v)

pub AccountsAt-other :
    (m : ℕ → ℕ) (a v start i : ℕ) (xs : List ℕ)
    → (a < accounts_at start i) ⊎ (accounts_at start (i + length xs) ≤ a)
    → AccountsAt m start i xs
    → AccountsAt (update m a v) start i xs
unfolding AccountsAt
AccountsAt-other m a v start i [] o h = tt
AccountsAt-other m a v start i (x ∷ xs) o h = (
  update_other m a v (accounts_at start i)
        (elim o [ inl l ↦ λ e. absurd (omega arith) | inr l ↦ λ e. absurd (omega arith) ])
      ∙ h.0,
  AccountsAt-other m a v start (i + 1) xs
      (elim o [ inl l ↦ inl (omega arith) | inr l ↦ inr (omega arith) ]) h.1,
)

pub AccountsAt-set_at :
    (m : ℕ → ℕ) (v start i k a : ℕ) (xs : List ℕ)
    → a ≡ accounts_at start (i + k)
    → k < length xs
    → AccountsAt m start i xs
    → AccountsAt (update m a v) start i (set_at xs k v)
unfolding AccountsAt set_at
AccountsAt-set_at m v start i k a [] e l h = absurd (omega arith)
AccountsAt-set_at m v start i zero a (x ∷ xs) e l h = (
  ap (λ b. update m a v b) (omega arith) ∙ update_same m a v,
  AccountsAt-other m a v start (i + 1) xs (inl (omega arith)) h.1,
)
AccountsAt-set_at m v start i (suc k) a (x ∷ xs) e l h = (
  update_other m a v (accounts_at start i) (λ z. absurd (omega arith)) ∙ h.0,
  AccountsAt-set_at m v start (i + 1) k a xs (omega arith) (omega arith) h.1,
)

pub AccountsAt-get_at :
    (m : ℕ → ℕ) (start i k : ℕ) (xs : List ℕ)
    → k < length xs
    → AccountsAt m start i xs
    → m (accounts_at start (i + k)) ≡ get_at xs k
unfolding AccountsAt get_at
AccountsAt-get_at m start i k [] l h = absurd (omega arith)
AccountsAt-get_at m start i zero (x ∷ xs) l h = ap (λ a. m a) (omega arith) ∙ h.0
AccountsAt-get_at m start i (suc k) (x ∷ xs) l h =
    ap (λ a. m a) (omega arith) ∙ AccountsAt-get_at m start (i + 1) k xs (omega arith) h.1
