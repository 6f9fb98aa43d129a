-- ===== src/Grading/Bank/Alloc/Removal.antt =====
-- The removal of the last account in `alloc_tx` of `WorkloadBank` (grading/workload.hpp).
use performant_transactional.Base.{
  ℕ, zero, suc, ◌+◌, ◌<◌, ◌^◌, true, false, List, [], ◌∷◌, ◌≡◌, refl, sym, ap, ◌∙◌, inl, inr, ltb,
  length, arith,
}
use performant_transactional.Process.{update}
use performant_transactional.Grading.Shared.{
  add_word, sub_word, World, returned, apply, read_cell, write_cell, free_cell,
}
use performant_transactional.Grading.Shared.Apply.{apply-if}
use performant_transactional.Grading.Bank.{
  Bank, count_at, next_at, parity_at, accounts_at, remove_account,
}
use performant_transactional.Grading.Bank.Audit.{
  AccountsAt, sum, has_negative, has_debt, population, money,
}
use performant_transactional.Grading.Bank.Layout.{Place, segments, IsLaid, get_at}
use performant_transactional.Grading.Bank.Layout.Arrays.{
  update_other, update_same, update_two, AccountsAt-get_at,
}
use performant_transactional.Grading.Bank.Layout.Changes.{
  IsSpread, IsOutside, Change, accounts-same, ||_left, ||_right,
}

-- The first `k` accounts.
unfoldable take_at : List ℕ → ℕ → List ℕ
take_at [] k = []
take_at (x ∷ xs) zero = []
take_at (x ∷ xs) (suc k) = x ∷ take_at xs k

length-take_at : (xs : List ℕ) (k : ℕ) → length xs ≡ k + 1 → length (take_at xs k) ≡ k
unfolding take_at
length-take_at [] k h = absurd (omega arith)
length-take_at (x ∷ xs) zero h = refl
length-take_at (x ∷ xs) (suc k) h = ap suc (length-take_at xs k (omega arith))

sum-take_at : (xs : List ℕ) (k : ℕ) → length xs ≡ k + 1 → sum xs ≡ sum (take_at xs k) + get_at xs k
unfolding take_at sum get_at
sum-take_at [] k h = absurd (omega arith)
sum-take_at (x ∷ []) zero h = omega arith
sum-take_at (x ∷ y ∷ xs) zero h = absurd (omega arith)
sum-take_at (x ∷ xs) (suc k) h = let e = sum-take_at xs k (omega arith) in omega arith

sum_single : (xs : List ℕ) → length xs ≡ 1 → sum xs ≡ get_at xs 0
unfolding sum get_at
sum_single [] h = absurd (omega arith)
sum_single (x ∷ []) h = omega arith
sum_single (x ∷ y ∷ xs) h = absurd (omega arith)

has_negative-take_at :
    (xs : List ℕ) (k : ℕ) → has_negative xs ≡ false → has_negative (take_at xs k) ≡ false
unfolding take_at has_negative
has_negative-take_at [] k h = refl
has_negative-take_at (x ∷ xs) zero h = refl
has_negative-take_at (x ∷ xs) (suc k) h =
    rw (||_left _ (has_negative xs) h) (has_negative-take_at xs k (||_right _ (has_negative xs) h))

AccountsAt-take_at :
    (m : ℕ → ℕ) (start i k : ℕ) (xs : List ℕ)
    → AccountsAt m start i xs
    → AccountsAt m start i (take_at xs k)
unfolding take_at AccountsAt
AccountsAt-take_at m start i k [] h = tt
AccountsAt-take_at m start i zero (x ∷ xs) h = tt
AccountsAt-take_at m start i (suc k) (x ∷ xs) h = (h.0, AccountsAt-take_at m start (i + 1) k xs h.1)

-- The new parity that the code computes.
abbrev pub new_parity : ℕ → Place → ℕ → ℕ
new_parity init q k = sub_word (add_word q.segment.parity (get_at q.segment.accounts k)) init

abbrev pub shortened : (ℕ → ℕ) → ℕ → Place → ℕ → (ℕ → ℕ)
shortened m init q k =
    update (update m (count_at q.address) k) (parity_at q.address) (new_parity init q k)

abbrev pub merged : (ℕ → ℕ) → ℕ → Place → Place → (ℕ → ℕ)
merged m init r q =
    update (update m (next_at r.address) 0) (parity_at r.address)
      (add_word r.segment.parity (new_parity init q 0))

module _ (capacity : ℕ) (extra : List ℕ) (init : ℕ) (m : ℕ → ℕ) where
  pub shortened-Change :
      (q : Place) (k : ℕ)
      → init < 2 ^ 63
      → length q.segment.accounts ≡ k + 1
      → IsSpread capacity extra (q ∷ [])
      → IsLaid m (q ∷ [])
      → (qs : List Place) × Change capacity extra 1 0 init 0 m (shortened m init q k) (q ∷ []) qs
  unfolding IsLaid IsSpread IsOutside population money has_debt segments add_word sub_word
  shortened-Change q k hi h s l =
      let xs = q.segment.accounts in
      let np = new_parity init q k in
      let m' = shortened m init q k in
      let a = q.address in
      let p : Place = record {
        address = a;
        segment = record { parity = np; accounts = take_at xs k };
      } in
      let n = length-take_at xs k h in
      let total = sum-take_at xs k h in
      (
        p ∷ [],
        record {
          laid = (
            l.0,
            update_other (update m (count_at a) k) (parity_at a) np (count_at a)
                  (λ e. absurd (omega arith))
                ∙ update_same m (count_at a) k
                ∙ sym n,
            update_same (update m (count_at a) k) (parity_at a) np,
            accounts-same m m' a 0 (take_at xs k)
                (λ b g g'.
                  update_two m (count_at a) k (parity_at a) np b (λ e. absurd (omega arith))
                    (λ e. absurd (omega arith)))
                (AccountsAt-take_at m a 0 k xs l.3),
            update_two m (count_at a) k (parity_at a) np (next_at a) (λ e. absurd (omega arith))
                  (λ e. absurd (omega arith))
                ∙ l.4,
            tt,
          );
          head = refl;
          frame = λ b o o'.
              update_two m (count_at a) k (parity_at a) np b
                (elim o.0 [ inl g ↦ λ e. absurd (omega arith) | inr g ↦ λ e. absurd (omega arith) ])
                (elim o.0 [
                  | inl g ↦ λ e. absurd (omega arith)
                  | inr g ↦ λ e. absurd (omega arith)
                ]);
          size = omega arith;
          people = omega arith;
          wealth = omega arith;
          solvent = λ d. rw (has_negative-take_at xs k (||_left (has_negative xs) false d)) refl;
        },
      )

  pub merged-Change :
      (r q : Place)
      → init < 2 ^ 63
      → length q.segment.accounts ≡ 1
      → IsSpread capacity extra (r ∷ q ∷ [])
      → IsLaid m (r ∷ q ∷ [])
      → (qs : List Place) × Change capacity extra 1 0 init 0 m (merged m init r q) (r ∷ q ∷ []) qs
  unfolding IsLaid IsSpread IsOutside population money has_debt segments add_word sub_word
  merged-Change r q hi h s l =
      let v = add_word r.segment.parity (new_parity init q 0) in
      let m' = merged m init r q in
      let a = r.address in
      let p : Place = record {
        address = a;
        segment = record { parity = v; accounts = r.segment.accounts };
      } in
      let total = sum_single q.segment.accounts h in
      (
        p ∷ [],
        record {
          laid = (
            l.0,
            update_two m (next_at a) 0 (parity_at a) v (count_at a) (λ e. absurd (omega arith))
                  (λ e. absurd (omega arith))
                ∙ l.1,
            update_same (update m (next_at a) 0) (parity_at a) v,
            accounts-same m m' a 0 r.segment.accounts
                (λ b g g'.
                  update_two m (next_at a) 0 (parity_at a) v b (λ e. absurd (omega arith))
                    (λ e. absurd (omega arith)))
                l.3,
            update_other (update m (next_at a) 0) (parity_at a) v (next_at a)
                  (λ e. absurd (omega arith))
                ∙ update_same m (next_at a) 0,
            tt,
          );
          head = refl;
          frame = λ b o o'.
              update_two m (next_at a) 0 (parity_at a) v b
                (elim o.0 [ inl g ↦ λ e. absurd (omega arith) | inr g ↦ λ e. absurd (omega arith) ])
                (elim o.0 [
                  | inl g ↦ λ e. absurd (omega arith)
                  | inr g ↦ λ e. absurd (omega arith)
                ]);
          size = omega arith;
          people = omega arith;
          wealth = omega arith;
          solvent = λ d. rw (||_left (has_negative r.segment.accounts) _ d) refl;
        },
      )

last_balance :
    (m : ℕ → ℕ) (q : Place) (k : ℕ)
    → length q.segment.accounts ≡ k + 1
    → IsLaid m (q ∷ [])
    → m (accounts_at q.address k) ≡ get_at q.segment.accounts k
unfolding IsLaid
last_balance m q k h l =
    ap (λ a. m a) (omega arith)
    ∙ AccountsAt-get_at m q.address 0 k q.segment.accounts (omega arith) l.3

pub remove_account-shortened :
    (b : Bank) (prev : ℕ) (q : Place) (k : ℕ) (w : World)
    → length q.segment.accounts ≡ k + 1
    → ltb 0 k ≡ true
    → IsLaid w.mem (q ∷ [])
    → apply (remove_account b prev q.address k) w
      ≡ (returned tt, record w { mem = shortened w.mem b.init_balance q k })
unfolding apply remove_account read_cell write_cell IsLaid
remove_account-shortened b prev q k w h e l =
    apply-if (ltb 0 k) _ _ w ∙ rw (e, l.2, last_balance w.mem q k h l) refl

pub remove_account-merged :
    (b : Bank) (r q : Place) (w : World)
    → length q.segment.accounts ≡ 1
    → IsLaid w.mem (r ∷ q ∷ [])
    → apply (remove_account b r.address q.address 0) w
      ≡ (returned tt, record w { mem = merged w.mem b.init_balance r q })
unfolding apply remove_account read_cell write_cell free_cell IsLaid
remove_account-merged b r q w h l =
    rw
      (
        l.5.2,
        last_balance w.mem q 0 h l.5,
        update_other w.mem (next_at r.address) 0 (parity_at r.address) (λ e. absurd (omega arith)),
        l.2,
      )
      refl
