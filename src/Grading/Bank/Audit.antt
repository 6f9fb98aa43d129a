-- ===== src/Grading/Bank/Audit.antt =====
-- What `long_tx` of `WorkloadBank` (grading/workload.hpp) finds in a list of segments.
use performant_transactional.Base.{
  ℕ, zero, suc, ◌+◌, ◌*◌, ◌%◌, ◌<◌, Bool, true, false, ◌||◌, Option, none, some, List, [], ◌∷◌, ◌≡◌,
  ◌≢◌, refl, ap, ap₂, ◌∙◌, inl, inr, ◌==◌, ==_iff, Bool-cases, length, arith, if◌then◌else◌,
}
use performant_transactional.Process.{ret}
use performant_transactional.Grading.Shared.{
  word_mod, add_word, mul_word, is_negative, Tx, World, returned, apply, read_cell,
}
use performant_transactional.Grading.Shared.Apply.{apply-if, resume, apply-bind}
use performant_transactional.Grading.Bank.{
  Bank, count_at, next_at, parity_at, accounts_at, sum_accounts, after_accounts, long_loop,
  long_result, long_end, long_tx,
}
use native.Mathlib.Nat.{mod-add-mod}

-- A segment by its contents.
pub record Segment : Type 0 where
  pub parity : ℕ
  pub accounts : List ℕ

unfoldable pub AccountsAt : (ℕ → ℕ) → ℕ → ℕ → List ℕ → Type 0
AccountsAt m start i [] = Unit {0}
AccountsAt m start i (x ∷ xs) = (m (accounts_at start i) ≡ x) × AccountsAt m start (i + 1) xs

-- The list of segments that the words `m` hold from `start` on.
unfoldable pub IsChain : (ℕ → ℕ) → ℕ → List Segment → Type 0
IsChain m start [] = start ≡ 0
IsChain m start (g ∷ gs) =
    (start ≢ 0)
    × (m (count_at start) ≡ length g.accounts)
    × (m (parity_at start) ≡ g.parity)
    × AccountsAt m start 0 g.accounts
    × IsChain m (m (next_at start)) gs

unfoldable pub sum : List ℕ → ℕ
sum [] = 0
sum (x ∷ xs) = x + sum xs

unfoldable pub has_negative : List ℕ → Bool
has_negative [] = false
has_negative (x ∷ xs) = is_negative x || has_negative xs

-- Over all segments: a negative balance, the number of accounts, balances with parities.
unfoldable pub has_debt : List Segment → Bool
has_debt [] = false
has_debt (g ∷ gs) = has_negative g.accounts || has_debt gs

unfoldable pub population : List Segment → ℕ
population [] = 0
population (g ∷ gs) = length g.accounts + population gs

unfoldable pub money : List Segment → ℕ
money [] = 0
money (g ∷ gs) = g.parity + (sum g.accounts + money gs)

-- The loops on sums that are kept modulo the size of a word.
unfoldable sum_found : List ℕ → ℕ → Option ℕ
sum_found xs total = if has_negative xs then none else some ((total + sum xs) % word_mod)

sum_accounts-suc :
    (n i start total : ℕ) (w : World)
    → apply (sum_accounts (suc n) i start total) w ≡ (
        if is_negative (w.mem (accounts_at start i))
        then (returned none, w)
        else apply (sum_accounts n (i + 1) start (add_word total (w.mem (accounts_at start i)))) w)
unfolding apply sum_accounts read_cell
sum_accounts-suc n i start total w =
    apply-if (is_negative (w.mem (accounts_at start i))) (ret none)
      (sum_accounts n (i + 1) start (add_word total (w.mem (accounts_at start i)))) w

add_word-mod : (t x : ℕ) → add_word (t % word_mod) x ≡ (t + x) % word_mod
unfolding add_word
add_word-mod t x = mod-add-mod t word_mod x

sum_accounts-AccountsAt :
    (xs : List ℕ) (i start total : ℕ) (w : World)
    → AccountsAt w.mem start i xs
    → apply (sum_accounts (length xs) i start (total % word_mod)) w
      ≡ (returned (sum_found xs total), w)
unfolding apply sum_accounts AccountsAt sum_found has_negative sum
sum_accounts-AccountsAt [] i start total w h =
    ap (λ t. (returned (some (t % word_mod)), w)) (omega arith)
sum_accounts-AccountsAt (x ∷ xs) i start total w h =
    sum_accounts-suc (length xs) i start (total % word_mod) w
    ∙ rw (h.0, add_word-mod total x, sum_accounts-AccountsAt xs (i + 1) start (total + x) w h.1)
        (elim (Bool-cases (is_negative x)) [
          | inl e ↦ rw e refl
          | inr e ↦ rw e (
              ap (λ t. (returned (if has_negative xs then none else some (t % word_mod)), w))
                (omega arith))
        ])

unfoldable long_found : List Segment → ℕ → ℕ → Option (ℕ × ℕ)
long_found gs count total =
    if has_debt gs
    then none
    else some ((count + population gs) % word_mod, (total + money gs) % word_mod)

long_loop-segment :
    (fuel start count total : ℕ) (w : World)
    → (start == 0) ≡ false
    → apply (long_loop (suc fuel) start count total) w
      ≡ resume
          (after_accounts
            (λ next sum'. long_loop fuel next (add_word count (w.mem (count_at start))) sum')
            start)
          (apply
            (sum_accounts
              (w.mem (count_at start))
              0
              start
              (add_word total (w.mem (parity_at start))))
            w)
unfolding apply long_loop read_cell
long_loop-segment fuel start count total w e = rw e (
    apply-bind
      (sum_accounts (w.mem (count_at start)) 0 start (add_word total (w.mem (parity_at start))))
      (after_accounts
        (λ next sum'. long_loop fuel next (add_word count (w.mem (count_at start))) sum') start)
      w)

long_loop-end :
    (fuel start count total : ℕ) (w : World)
    → (start == 0) ≡ true
    → apply (long_loop (suc fuel) start count total) w ≡ (returned (some (some (count, total))), w)
unfolding apply long_loop
long_loop-end fuel start count total w e = rw e refl

after_accounts-sum_found :
    (onward : ℕ → ℕ → Tx (Option (Option (ℕ × ℕ)))) (start : ℕ) (xs : List ℕ) (total : ℕ)
    (w : World)
    → resume (after_accounts onward start) (returned (sum_found xs total), w) ≡ (
        if has_negative xs
        then (returned (some none), w)
        else apply (onward (w.mem (next_at start)) ((total + sum xs) % word_mod)) w)
unfolding resume after_accounts sum_found apply read_cell
after_accounts-sum_found onward start xs total w = elim (Bool-cases (has_negative xs)) [
  | inl e ↦ rw e refl
  | inr e ↦ rw e refl
]

nonzero : (n : ℕ) → n ≢ 0 → (n == 0) ≡ false
nonzero n h = ground arith

long_loop-IsChain :
    (fuel : ℕ) (gs : List Segment) (start count total : ℕ) (w : World)
    → length gs < fuel
    → IsChain w.mem start gs
    → apply (long_loop fuel start (count % word_mod) (total % word_mod)) w
      ≡ (returned (some (long_found gs count total)), w)
unfolding IsChain long_found has_debt population money
long_loop-IsChain zero gs start count total w h c = absurd (omega arith)
long_loop-IsChain (suc fuel) [] start count total w h c =
    long_loop-end fuel start (count % word_mod) (total % word_mod) w ((==_iff start 0).1 c)
    ∙ ap₂ (λ a b. (returned (some (some (a % word_mod, b % word_mod))), w)) (omega arith)
        (omega arith)
long_loop-IsChain (suc fuel) (g ∷ gs) start count total w h c =
    long_loop-segment fuel start (count % word_mod) (total % word_mod) w (nonzero start c.0)
    ∙ rw
        (
          c.1,
          c.2,
          add_word-mod count (length g.accounts),
          add_word-mod total g.parity,
          sum_accounts-AccountsAt g.accounts 0 start (total + g.parity) w c.3,
          after_accounts-sum_found
              (λ next sum'. long_loop fuel next ((count + length g.accounts) % word_mod) sum') start
              g.accounts (total + g.parity) w,
          long_loop-IsChain fuel gs (w.mem (next_at start)) (count + length g.accounts)
              (total + g.parity + sum g.accounts) w (omega arith) c.4,
        )
        (elim (Bool-cases (has_negative g.accounts)) [
          | inl e ↦ rw e refl
          | inr e ↦ rw e (
              ap₂
                (λ a b. (
                  returned (some (if has_debt gs then none else some (a % word_mod, b % word_mod))),
                  w,
                ))
                (omega arith) (omega arith))
        ])

zero_add : (n : ℕ) → 0 + n ≡ n
zero_add n = omega arith

-- What `long_tx` has to answer: no negative balance, and the money is `init_balance` for each
-- account, in words. Its argument `nbaccounts` becomes the number of accounts.
unfoldable pub audit : ℕ → ℕ → List Segment → Bool × ℕ
audit init_balance nbaccounts gs = if has_debt gs then (false, nbaccounts) else (
  (money gs % word_mod) == (init_balance * (population gs % word_mod) % word_mod),
  population gs % word_mod,
)

-- Where the words hold the list of segments `gs` from the start on, `long_tx` with fuel for more
-- than their number returns `audit` of them and changes nothing.
pub long_tx-audit :
    (fuel : ℕ) (b : Bank) (nbaccounts : ℕ) (gs : List Segment) (w : World)
    → length gs < fuel
    → IsChain w.mem b.start gs
    → apply (long_tx fuel b nbaccounts) w
      ≡ (returned (some (audit b.init_balance nbaccounts gs)), w)
unfolding long_tx long_end long_result audit long_found resume apply mul_word
long_tx-audit fuel b nbaccounts gs w h c =
    apply-bind (long_loop fuel b.start 0 0) (long_end b.init_balance nbaccounts) w
    ∙ ap (resume (long_end b.init_balance nbaccounts)) (long_loop-IsChain fuel gs b.start 0 0 w h c)
    ∙ elim (Bool-cases (has_debt gs)) [
      | inl e ↦ rw e refl
      | inr e ↦ rw (e, zero_add (money gs), zero_add (population gs)) refl
    ]
