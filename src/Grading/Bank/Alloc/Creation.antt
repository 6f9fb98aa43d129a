-- ===== src/Grading/Bank/Alloc/Creation.antt =====
-- The new account of `alloc_tx` of `WorkloadBank` (grading/workload.hpp) in the last segment.
use performant_transactional.Base.{
  ℕ, ◌+◌, ◌%◌, ◌<◌, true, false, List, [], ◌∷◌, ◌≡◌, refl, sym, ap, ◌∙◌, inl, inr, ltb, length,
  arith,
}
use performant_transactional.Process.{update}
use performant_transactional.Grading.Shared.{
  word_mod, add_word, is_negative, World, returned, apply, write_cell,
}
use performant_transactional.Grading.Bank.{
  Bank, count_at, next_at, parity_at, accounts_at, add_account,
}
use performant_transactional.Grading.Bank.Audit.{
  AccountsAt, sum, has_negative, has_debt, population, money,
}
use performant_transactional.Grading.Bank.Layout.{Place, segments, IsLaid}
use performant_transactional.Grading.Bank.Layout.Arrays.{update_other, update_same, update_two}
use performant_transactional.Grading.Bank.Layout.Changes.{
  IsSpread, IsOutside, Change, accounts-same, ||_left, ||_right,
}

unfoldable appended : List ℕ → ℕ → List ℕ
appended [] v = v ∷ []
appended (x ∷ xs) v = x ∷ appended xs v

length-appended : (xs : List ℕ) (v : ℕ) → length (appended xs v) ≡ length xs + 1
unfolding appended
length-appended [] v = refl
length-appended (x ∷ xs) v = let e = length-appended xs v in omega arith

sum-appended : (xs : List ℕ) (v : ℕ) → sum (appended xs v) ≡ sum xs + v
unfolding appended sum
sum-appended [] v = omega arith
sum-appended (x ∷ xs) v = let e = sum-appended xs v in omega arith

has_negative-appended :
    (xs : List ℕ) (v : ℕ)
    → is_negative v ≡ false
    → has_negative xs ≡ false
    → has_negative (appended xs v) ≡ false
unfolding appended has_negative
has_negative-appended [] v n h = rw n refl
has_negative-appended (x ∷ xs) v n h =
    rw (||_left _ (has_negative xs) h)
      (has_negative-appended xs v n (||_right _ (has_negative xs) h))

AccountsAt-appended :
    (m : ℕ → ℕ) (start i v : ℕ) (xs : List ℕ)
    → AccountsAt m start i xs
    → m (accounts_at start (i + length xs)) ≡ v
    → AccountsAt m start i (appended xs v)
unfolding appended AccountsAt
AccountsAt-appended m start i v [] h e = (ap (λ a. m a) (omega arith) ∙ e, tt)
AccountsAt-appended m start i v (x ∷ xs) h e =
    (h.0, AccountsAt-appended m start (i + 1) v xs h.1 (ap (λ a. m a) (omega arith) ∙ e))

abbrev pub lengthened : (ℕ → ℕ) → ℕ → Place → (ℕ → ℕ)
lengthened m init q =
    update (update m (accounts_at q.address (length q.segment.accounts)) init) (count_at q.address)
      (add_word (length q.segment.accounts) 1)

add_one : (k : ℕ) → k + 1 < word_mod → add_word k 1 ≡ k + 1
unfolding add_word
add_one k h = omega arith

module _ (capacity init : ℕ) (m : ℕ → ℕ) where
  pub lengthened-Change :
      (extra : List ℕ) (q : Place)
      → is_negative init ≡ false
      → length q.segment.accounts < capacity
      → length q.segment.accounts + 1 < word_mod
      → IsSpread capacity extra (q ∷ [])
      → IsLaid m (q ∷ [])
      → (qs : List Place) × Change capacity extra 0 1 0 init m (lengthened m init q) (q ∷ []) qs
  unfolding IsLaid IsSpread IsOutside population money has_debt segments
  lengthened-Change extra q n room small s l =
      let xs = q.segment.accounts in
      let k = length xs in
      let a = q.address in
      let m' = lengthened m init q in
      let p : Place = record {
        address = a;
        segment = record { parity = q.segment.parity; accounts = appended xs init };
      } in
      let longer = length-appended xs init in
      let total = sum-appended xs init in
      let one = add_one k small in
      (
        p ∷ [],
        record {
          laid = (
            l.0,
            update_same (update m (accounts_at a k) init) (count_at a) (add_word k 1)
                ∙ one
                ∙ sym longer,
            update_two m (accounts_at a k) init (count_at a) (add_word k 1) (parity_at a)
                  (λ e. absurd (omega arith)) (λ e. absurd (omega arith))
                ∙ l.2,
            AccountsAt-appended m' a 0 init xs
                (accounts-same m m' a 0 xs
                  (λ b g g'.
                    update_two m (accounts_at a k) init (count_at a) (add_word k 1) b
                      (λ e. absurd (omega arith)) (λ e. absurd (omega arith)))
                  l.3)
                (update_other (update m (accounts_at a k) init) (count_at a) (add_word k 1)
                    (accounts_at a (0 + k)) (λ e. absurd (omega arith))
                  ∙ ap (λ b. update m (accounts_at a k) init b) (omega arith)
                  ∙ update_same m (accounts_at a k) init),
            update_two m (accounts_at a k) init (count_at a) (add_word k 1) (next_at a)
                  (λ e. absurd (omega arith)) (λ e. absurd (omega arith))
                ∙ l.4,
            tt,
          );
          head = refl;
          frame = λ b o o'.
              update_two m (accounts_at a k) init (count_at a) (add_word k 1) b
                (elim o.0 [ inl g ↦ λ e. absurd (omega arith) | inr g ↦ λ e. absurd (omega arith) ])
                (elim o.0 [
                  | inl g ↦ λ e. absurd (omega arith)
                  | inr g ↦ λ e. absurd (omega arith)
                ]);
          size = omega arith;
          people = omega arith;
          wealth = ap (λ t. t % word_mod) (omega arith);
          solvent =
              λ d. rw (has_negative-appended xs init n (||_left (has_negative xs) false d)) refl;
        },
      )

pub add_account-lengthened :
    (b : Bank) (q : Place) (w : World)
    → ltb (length q.segment.accounts) b.nbaccounts ≡ true
    → apply (add_account b q.address (length q.segment.accounts)) w
      ≡ (returned tt, record w { mem = lengthened w.mem b.init_balance q })
unfolding apply add_account write_cell
add_account-lengthened b q w e = rw e refl
