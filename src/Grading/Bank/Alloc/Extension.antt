-- ===== src/Grading/Bank/Alloc/Extension.antt =====
-- The new segment of `alloc_tx` of `WorkloadBank` (grading/workload.hpp).
use performant_transactional.Base.{
  ℕ, ◌+◌, ◌%◌, ◌≤◌, ◌<◌, false, List, [], ◌∷◌, ◌≡◌, ◌≢◌, refl, sym, ap, ◌∙◌, ◌⊎◌, inl, inr, ltb,
  ◌==◌, length, arith,
}
use performant_transactional.Process.{update}
use performant_transactional.Grading.Shared.{
  word_mod, is_negative, World, first, rest, zero_words, returned, apply, write_cell, alloc_cell,
}
use performant_transactional.Grading.Bank.{
  Bank, count_at, next_at, parity_at, accounts_at, segment_size, add_account,
}
use performant_transactional.Grading.Bank.Audit.{
  AccountsAt, sum, has_negative, has_debt, population, money,
}
use performant_transactional.Grading.Bank.Layout.{Place, segments, IsLaid}
use performant_transactional.Grading.Bank.Layout.Arrays.{update_other, update_same, update_two}
use performant_transactional.Grading.Bank.Layout.Changes.{
  IsSpread, IsApartFrom, IsOutside, Change, accounts-same, ||_left,
}

abbrev pub extended : ℕ → (ℕ → ℕ) → ℕ → Place → ℕ → (ℕ → ℕ)
extended capacity m init q f =
    update
      (update (update (zero_words m f (segment_size capacity)) (next_at q.address) f) (count_at f)
        1)
      (accounts_at f 0) init

zero_words_outside : (m : ℕ → ℕ) (f n b : ℕ) → (b < f) ⊎ (f + n ≤ b) → zero_words m f n b ≡ m b
unfolding zero_words
zero_words_outside m f n b h = ground arith

zero_words_inside : (m : ℕ → ℕ) (f n b : ℕ) → f ≤ b → b < f + n → zero_words m f n b ≡ 0
unfolding zero_words
zero_words_inside m f n b h h' = ground arith

module _ (capacity init : ℕ) (m : ℕ → ℕ) where
  -- Outside of the new segment and of the pointer to it.
  extended_other :
      (q : Place) (f b : ℕ)
      → 0 < capacity
      → next_at q.address ≢ b
      → (b < f) ⊎ (accounts_at f capacity ≤ b)
      → extended capacity m init q f b ≡ m b
  unfolding segment_size
  extended_other q f b c d o =
      let m1 = zero_words m f (segment_size capacity) in
      update_two (update m1 (next_at q.address) f) (count_at f) 1 (accounts_at f 0) init b
        (elim o [ inl g ↦ λ e. absurd (omega arith) | inr g ↦ λ e. absurd (omega arith) ])
        (elim o [ inl g ↦ λ e. absurd (omega arith) | inr g ↦ λ e. absurd (omega arith) ])
      ∙ update_other m1 (next_at q.address) f b d
      ∙ zero_words_outside m f (segment_size capacity) b
          (elim o [ inl g ↦ inl g | inr g ↦ inr (omega arith) ])

  -- The parity and the next segment of the new one.
  extended_zero :
      (q : Place) (f b : ℕ)
      → next_at q.address ≢ b
      → f < b
      → b < accounts_at f 0
      → extended capacity m init q f b ≡ 0
  unfolding segment_size
  extended_zero q f b d h h' =
      let m1 = zero_words m f (segment_size capacity) in
      update_two (update m1 (next_at q.address) f) (count_at f) 1 (accounts_at f 0) init b
        (λ e. absurd (omega arith)) (λ e. absurd (omega arith))
      ∙ update_other m1 (next_at q.address) f b d
      ∙ zero_words_inside m f (segment_size capacity) b (omega arith) (omega arith)

  pub extended-Change :
      (q : Place) (f : ℕ)
      → is_negative init ≡ false
      → f ≢ 0
      → IsSpread capacity (f ∷ []) (q ∷ [])
      → IsLaid m (q ∷ [])
      → (qs : List Place) × Change capacity
          (f ∷ [])
          0
          1
          0
          init
          m
          (extended capacity m init q f)
          (q ∷ [])
          qs
  unfolding IsLaid IsSpread IsApartFrom IsOutside AccountsAt population money has_debt has_negative
      sum segments
  extended-Change q f n d s l =
      let a = q.address in
      let m' = extended capacity m init q f in
      let m1 = zero_words m f (segment_size capacity) in
      let m2 = update m1 (next_at a) f in
      let room : 0 < capacity = omega arith in
      let new : Place = record {
        address = f;
        segment = record { parity = 0; accounts = init ∷ [] };
      } in
      let same : (b : ℕ) → a ≤ b → b < accounts_at a capacity → next_at a ≢ b → m' b ≡ m b =
        λ b g g' e.
          extended_other q f b room e
            (elim s.3.0 [ inl o ↦ inl (omega arith) | inr o ↦ inr (omega arith) ]) in
      let away : (b : ℕ) → f ≤ b → b < accounts_at f capacity → next_at a ≢ b =
        λ b g g' e. elim s.3.0 [ inl o ↦ absurd (omega arith) | inr o ↦ absurd (omega arith) ] in
      (
        q ∷ new ∷ [],
        record {
          laid = (
            l.0,
            same (count_at a) (omega arith) (omega arith) (λ e. absurd (omega arith)) ∙ l.1,
            same (parity_at a) (omega arith) (omega arith) (λ e. absurd (omega arith)) ∙ l.2,
            accounts-same m m' a 0 q.segment.accounts
                (λ b g g'. same b (omega arith) (omega arith) (λ e. absurd (omega arith))) l.3,
            update_two m2 (count_at f) 1 (accounts_at f 0) init (next_at a)
                  (λ e. away (count_at f) (omega arith) (omega arith) (sym e))
                  (λ e. away (accounts_at f 0) (omega arith) (omega arith) (sym e))
                ∙ update_same m1 (next_at a) f,
            (
              d,
              update_other (update m2 (count_at f) 1) (accounts_at f 0) init (count_at f)
                    (λ e. absurd (omega arith))
                  ∙ update_same m2 (count_at f) 1,
              extended_zero q f (parity_at f) (away (parity_at f) (omega arith) (omega arith))
                  (omega arith) (omega arith),
              (update_same (update m2 (count_at f) 1) (accounts_at f 0) init, tt),
              extended_zero q f (next_at f) (away (next_at f) (omega arith) (omega arith))
                  (omega arith) (omega arith),
              tt,
            ),
          );
          head = refl;
          frame = λ b o o'.
              extended_other q f b room
                (elim o.0 [ inl g ↦ λ e. absurd (omega arith) | inr g ↦ λ e. absurd (omega arith) ])
                o'.0;
          size = omega arith;
          people = omega arith;
          wealth = ap (λ t. t % word_mod) (omega arith);
          solvent = λ e. rw (||_left (has_negative q.segment.accounts) false e, n) refl;
        },
      )

pub add_account-extended :
    (b : Bank) (q : Place) (w : World)
    → ltb (length q.segment.accounts) b.nbaccounts ≡ false
    → (first w.blocks == 0) ≡ false
    → apply (add_account b q.address (length q.segment.accounts)) w ≡ (
      returned tt,
      record {
        mem = extended b.nbaccounts w.mem b.init_balance q (first w.blocks);
        blocks = rest w.blocks;
      },
    )
unfolding apply add_account write_cell alloc_cell
add_account-extended b q w e d = rw (e, d) refl
