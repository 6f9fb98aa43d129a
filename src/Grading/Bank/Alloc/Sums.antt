-- ===== src/Grading/Bank/Alloc/Sums.antt =====
-- What `long_tx` of `WorkloadBank` (grading/workload.hpp) asks for, with an account more or less.
use performant_transactional.Base.{
  ℕ, ◌+◌, ◌*◌, ◌%◌, ◌<◌, true, false, List, ◌≡◌, ap, inl, inr, ==_iff, arith, Bool-cases,
}
use performant_transactional.Grading.Shared.{word_mod}
use performant_transactional.Grading.Bank.Audit.{has_debt, population, money, audit}
use performant_transactional.Grading.Bank.Layout.{Place, segments}

-- What `long_tx` asks for.
pub audit-true :
    (init k c : ℕ) (ps : List Place)
    → audit init k (segments ps) ≡ (true, c)
    → (has_debt (segments ps) ≡ false)
      × (money (segments ps) % word_mod ≡ init * (population (segments ps) % word_mod) % word_mod)
      × (population (segments ps) % word_mod ≡ c)
unfolding audit
audit-true init k c ps h = elim (Bool-cases (has_debt (segments ps))) [
  | inl e ↦ absurd (true_false (ap (λ r. r.0) (rw e at h)))
  | inr e ↦ (e, (==_iff _ _).0 (ap (λ r. r.0) (rw e at h)), ap (λ r. r.1) (rw e at h))
]
  where
    true_false : false ≡ true → ⊥
    true_false h = absurd cc

pub true-audit :
    (init k c : ℕ) (ps : List Place)
    → has_debt (segments ps) ≡ false
    → money (segments ps) % word_mod ≡ init * c % word_mod
    → population (segments ps) ≡ c
    → c < word_mod
    → audit init k (segments ps) ≡ (true, c)
unfolding audit
true-audit init k c ps d e p h = rw (d, p, whole c h) (ap (λ t. (t, c)) ((==_iff _ _).1 e))
  where
    whole : (c : ℕ) → c < word_mod → c % word_mod ≡ c
    whole c h = omega arith

-- The money after an account less, or one more; `k` is the money of the accounts that stay.
pub balance_less :
    (m m' init k : ℕ)
    → (m' + init) % word_mod ≡ (m + 0) % word_mod
    → m % word_mod ≡ (k + init) % word_mod
    → m' % word_mod ≡ k % word_mod
balance_less m m' init k e h = omega arith

pub balance_more :
    (m m' init k : ℕ)
    → (m' + 0) % word_mod ≡ (m + init) % word_mod
    → m % word_mod ≡ k % word_mod
    → m' % word_mod ≡ (k + init) % word_mod
balance_more m m' init k e h = omega arith

pub product_suc : (init n : ℕ) → init * (n + 1) ≡ init * n + init
product_suc init n = grind arith
