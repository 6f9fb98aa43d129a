-- ===== src/Grading/Bank/Start.antt =====
-- `init` of `WorkloadBank` (grading/workload.hpp), and the `long_tx` that follows it.
use performant_transactional.Base.{
  ℕ, zero, suc, ◌+◌, ◌*◌, ◌/◌, ◌%◌, ◌<◌, true, false, some, List, [], ◌∷◌, ◌≡◌, ◌≢◌, refl, sym, ap,
  ap₂, ◌∙◌, ==_iff, length, arith,
}
use native.Mathlib.Nat.{add-mul-mod_self_left, div-add-mod}
use performant_transactional.Process.{◌>>◌, update}
use performant_transactional.Grading.Shared.{
  word_mod, is_negative, World, returned, apply, write_cell,
}
use performant_transactional.Grading.Shared.Apply.{resume, apply-bind}
use performant_transactional.Grading.Bank.{
  Bank, count_at, next_at, parity_at, accounts_at, fill_accounts, init_tx, long_tx,
}
use performant_transactional.Grading.Bank.Layout.Arrays.{update_other, update_same}
use performant_transactional.Grading.Bank.Audit.{
  Segment, AccountsAt, IsChain, sum, has_negative, has_debt, population, money, audit,
  long_tx-audit,
}

unfoldable pub copies : ℕ → ℕ → List ℕ
copies zero x = []
copies (suc n) x = x ∷ copies n x

-- The words after the loop of `init`.
unfoldable pub filled : (ℕ → ℕ) → ℕ → ℕ → ℕ → ℕ → (ℕ → ℕ)
filled m zero i start x = m
filled m (suc n) i start x = filled (update m (accounts_at start i) x) n (i + 1) start x

fill_accounts-filled :
    (n i start x : ℕ) (w : World)
    → apply (fill_accounts n i start x) w
      ≡ (returned tt, record w { mem = filled w.mem n i start x })
unfolding apply fill_accounts filled write_cell
fill_accounts-filled zero i start x w = refl
fill_accounts-filled (suc n) i start x w =
    fill_accounts-filled n (i + 1) start x (record w { mem = update w.mem (accounts_at start i) x })

-- The loop from account `i` on leaves the words below it.
filled_below :
    (n i start x : ℕ) (m : ℕ → ℕ) (a : ℕ) → a < accounts_at start i → filled m n i start x a ≡ m a
unfolding filled
filled_below zero i start x m a h = refl
filled_below (suc n) i start x m a h =
    filled_below n (i + 1) start x (update m (accounts_at start i) x) a (omega arith)
    ∙ update_other m (accounts_at start i) x a (λ e. absurd (omega arith))

filled-AccountsAt :
    (n i start x : ℕ) (m : ℕ → ℕ) → AccountsAt (filled m n i start x) start i (copies n x)
unfolding AccountsAt copies filled
filled-AccountsAt zero i start x m = tt
filled-AccountsAt (suc n) i start x m = (
  filled_below n (i + 1) start x (update m (accounts_at start i) x) (accounts_at start i)
        (omega arith)
      ∙ update_same m (accounts_at start i) x,
  filled-AccountsAt n (i + 1) start x (update m (accounts_at start i) x),
)

length-copies : (n x : ℕ) → length (copies n x) ≡ n
unfolding copies
length-copies zero x = refl
length-copies (suc n) x = ap suc (length-copies n x)

sum-copies : (n x : ℕ) → sum (copies n x) ≡ n * x
unfolding copies sum
sum-copies zero x = omega arith
sum-copies (suc n) x = ap (λ s. x + s) (sum-copies n x) ∙ omega arith

has_negative-copies : (n x : ℕ) → is_negative x ≡ false → has_negative (copies n x) ≡ false
unfolding copies has_negative
has_negative-copies zero x h = refl
has_negative-copies (suc n) x h = rw (h, has_negative-copies n x h) refl

-- The words after `init`.
unfoldable pub initial : Bank → (ℕ → ℕ) → ℕ → ℕ
initial b m =
    filled (update m (count_at b.start) b.nbaccounts) b.nbaccounts 0 b.start b.init_balance

init_tx_lem :
    (b : Bank) (w : World) → apply (init_tx b) w ≡ (returned tt, record w { mem = initial b w.mem })
unfolding apply init_tx write_cell initial
init_tx_lem b w =
    fill_accounts-filled b.nbaccounts 0 b.start b.init_balance
      (record w { mem = update w.mem (count_at b.start) b.nbaccounts })

unfoldable pub first_segment : Bank → Segment
first_segment b = record { parity = 0; accounts = copies b.nbaccounts b.init_balance }

initial-IsChain :
    (b : Bank) (m : ℕ → ℕ)
    → b.start ≢ 0
    → m (next_at b.start) ≡ 0
    → m (parity_at b.start) ≡ 0
    → IsChain (initial b m) b.start (first_segment b ∷ [])
unfolding IsChain initial first_segment
initial-IsChain b m s n p = (
  s,
  filled_below b.nbaccounts 0 b.start b.init_balance m' (count_at b.start) (omega arith)
      ∙ update_same m (count_at b.start) b.nbaccounts
      ∙ sym (length-copies b.nbaccounts b.init_balance),
  below (parity_at b.start) (omega arith) (omega arith) ∙ p,
  filled-AccountsAt b.nbaccounts 0 b.start b.init_balance m',
  below (next_at b.start) (omega arith) (omega arith) ∙ n,
)
  where
    m' : ℕ → ℕ
    m' = update m (count_at b.start) b.nbaccounts

    below :
        (a : ℕ)
        → a < accounts_at b.start 0
        → count_at b.start < a
        → filled m' b.nbaccounts 0 b.start b.init_balance a ≡ m a
    below a h h' =
        filled_below b.nbaccounts 0 b.start b.init_balance m' a h
        ∙ update_other m (count_at b.start) b.nbaccounts a (λ e. absurd (omega arith))

mul-mod : (n x m : ℕ) → n * x % m ≡ x * (n % m) % m
mul-mod n x m = ap (λ p. p % m) expand ∙ add-mul-mod_self_left (x * (n % m)) m (x * (n / m))
  where
    product : (q r : ℕ) → (m * q + r) * x ≡ x * r + m * (x * q)
    product q r = grind arith

    expand : n * x ≡ x * (n % m) + m * (x * (n / m))
    expand = ap (λ k. k * x) (sym (div-add-mod n m)) ∙ product (n / m) (n % m)

audit-first_segment :
    (b : Bank) (n : ℕ)
    → is_negative b.init_balance ≡ false
    → audit b.init_balance n (first_segment b ∷ []) ≡ (true, b.nbaccounts % word_mod)
unfolding audit has_debt money population first_segment
audit-first_segment b n neg =
    rw
      (
        has_negative-copies b.nbaccounts b.init_balance neg,
        length-copies b.nbaccounts b.init_balance,
        sum-copies b.nbaccounts b.init_balance,
      )
      (ap₂ (λ x y. (x, y % word_mod))
        ((==_iff _ _).1 (
          ap (λ k. k % word_mod) (omega arith)
          ∙ mul-mod b.nbaccounts b.init_balance word_mod
          ∙ ap (λ k. b.init_balance * (k % word_mod) % word_mod) (omega arith)))
        (omega arith))

-- In a region whose start is not null and whose words for the next segment and the parity are zero,
-- where `init_balance` is not negative: the first transaction of `init`, and then `long_tx` with fuel for
-- more than one segment, finds no inconsistency and counts the initial accounts.
pub init_tx-long_tx :
    (fuel : ℕ) (b : Bank) (n : ℕ) (w : World)
    → 1 < fuel
    → b.start ≢ 0
    → w.mem (next_at b.start) ≡ 0
    → w.mem (parity_at b.start) ≡ 0
    → is_negative b.init_balance ≡ false
    → apply (init_tx b >> long_tx fuel b n) w
      ≡ (returned (some (true, b.nbaccounts % word_mod)), record w { mem = initial b w.mem })
unfolding resume
init_tx-long_tx fuel b n w h s e p neg =
    apply-bind (init_tx b) (λ _. long_tx fuel b n) w
    ∙ ap (resume (λ _. long_tx fuel b n)) (init_tx_lem b w)
    ∙ long_tx-audit fuel b n (first_segment b ∷ []) (record w { mem = initial b w.mem }) h
        (initial-IsChain b w.mem s e p)
    ∙ ap (λ a. (returned (some a), record w { mem = initial b w.mem }))
        (audit-first_segment b n neg)
