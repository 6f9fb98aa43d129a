-- ===== src/Grading/Bank/Alloc/Ending.antt =====
-- What `alloc_tx` of `WorkloadBank` (grading/workload.hpp) does at the last segment.
use performant_transactional.Base.{
  ℕ, zero, suc, ◌+◌, ◌-◌, ◌<◌, ◌^◌, true, false, List, [], ◌∷◌, ◌≡◌, ◌≢◌, refl, inl, inr, ltb,
  ltb→lt, lt→ltb, length, arith, Bool-cases,
}
use performant_transactional.Grading.Shared.{
  word_mod, sub_word, is_negative, World, first, returned, apply,
}
use performant_transactional.Grading.Bank.{Bank, remove_account, add_account}
use performant_transactional.Grading.Bank.Audit.{population}
use performant_transactional.Grading.Bank.Layout.{Place, segments, IsLaid}
use performant_transactional.Grading.Bank.Layout.Changes.{
  IsSpread, Changed, last_place, before_last, IsLaid-last, IsLaid-before_last, last-population,
  IsSpread-last, IsSpread-before_last, Change-last, Change-before_last,
}
use performant_transactional.Grading.Bank.Alloc.Removal.{
  shortened-Change, merged-Change, remove_account-shortened, remove_account-merged,
}
use performant_transactional.Grading.Bank.Alloc.Creation.{lengthened-Change, add_account-lengthened}
use performant_transactional.Grading.Bank.Alloc.Extension.{extended-Change, add_account-extended}
use performant_transactional.Grading.Bank.Alloc.Loop.{
  prev_of, prev-before_last, removes, at_last, nonzero,
}

pub one_less : (n : ℕ) → 0 < n → n < word_mod → (sub_word n 1 ≡ n - 1) × (n ≡ n - 1 + 1)
unfolding sub_word
one_less n h h' = (omega arith, omega arith)

-- The last account is one of at least three.
module _ (b : Bank) (prev : ℕ) (w : World) (extra : List ℕ) where
  pub removed-last :
      (p : Place) (ps : List Place) (k : ℕ)
      → b.init_balance < 2 ^ 63
      → length (last_place p ps).segment.accounts ≡ k + 1
      → 2 < population (segments (p ∷ ps))
      → IsSpread b.nbaccounts extra (p ∷ ps)
      → IsLaid w.mem (p ∷ ps)
      → let o = apply (remove_account b (prev_of prev p ps) (last_place p ps).address k) w in
        (o.0 ≡ returned tt) × Changed b.nbaccounts extra 1 0 b.init_balance 0 w.mem o.1.mem (p ∷ ps)
  unfolding population segments
  removed-last p ps (suc k) hi n many s l =
      let q = last_place p ps in
      let s' = IsSpread-last b.nbaccounts extra p ps s in
      let l' = IsLaid-last w.mem p ps l in
      rw
        (remove_account-shortened b (prev_of prev p ps) q (suc k) w n
          (lt→ltb 0 (suc k) (omega arith)) l')
        (
          refl,
          Change-last b.nbaccounts extra 1 0 b.init_balance 0 w.mem _ p ps s l
              (shortened-Change b.nbaccounts extra b.init_balance w.mem q (suc k) hi n s' l'),
        )
  removed-last p [] zero hi n many s l = absurd (omega arith)
  removed-last p (q ∷ ps) zero hi n many s l =
      let r = before_last p q ps in
      let z = last_place q ps in
      let s' = IsSpread-before_last b.nbaccounts extra p q ps s in
      let l' = IsLaid-before_last w.mem p q ps l in
      rw (prev-before_last prev p q ps, remove_account-merged b r z w (omega arith) l')
        (
          refl,
          Change-before_last b.nbaccounts extra 1 0 b.init_balance 0 w.mem _ p q ps s l
              (merged-Change b.nbaccounts extra b.init_balance w.mem r z hi (omega arith) s' l'),
        )

pub added-last :
    (b : Bank) (p : Place) (ps : List Place) (w : World)
    → is_negative b.init_balance ≡ false
    → population (segments (p ∷ ps)) + 1 < word_mod
    → first w.blocks ≢ 0
    → IsSpread b.nbaccounts (first w.blocks ∷ []) (p ∷ ps)
    → IsLaid w.mem (p ∷ ps)
    → let q = last_place p ps in
      let o = apply (add_account b q.address (length q.segment.accounts)) w in
      (o.0 ≡ returned tt)
      × Changed b.nbaccounts (first w.blocks ∷ []) 0 1 0 b.init_balance w.mem o.1.mem (p ∷ ps)
added-last b p ps w neg small f s l =
    let q = last_place p ps in
    let n = length q.segment.accounts in
    let extra = first w.blocks ∷ [] in
    let least = last-population p ps in
    let s' = IsSpread-last b.nbaccounts extra p ps s in
    let l' = IsLaid-last w.mem p ps l in
    let onto_list = Change-last b.nbaccounts extra 0 1 0 b.init_balance w.mem in
    elim (Bool-cases (ltb n b.nbaccounts)) [
      | inl e ↦ rw (add_account-lengthened b q w e) (
        refl,
        onto_list _ p ps s l (
            lengthened-Change b.nbaccounts b.init_balance w.mem extra q neg
              (ltb→lt n b.nbaccounts e) (omega arith) s' l'),
      )
      | inr e ↦ rw (add_account-extended b q w e (nonzero (first w.blocks) f)) (
        refl,
        onto_list _ p ps s l
            (extended-Change b.nbaccounts b.init_balance w.mem q (first w.blocks) neg f s' l'),
      )
    ]

pub many : (t n : ℕ) → removes t n ≡ true → 2 < n
many t n e = ground arith

pub has_account :
    (capacity : ℕ) (extra : List ℕ) (p : Place) (ps : List Place)
    → IsSpread capacity extra (p ∷ ps)
    → 0 < length (last_place p ps).segment.accounts
unfolding IsSpread
has_account capacity extra p ps s = (IsSpread-last capacity extra p ps s).0

-- At the end of the list, by whether an account is removed.
pub at_last-removes :
    (b : Bank) (trigger prev : ℕ) (p : Place) (ps : List Place) (w : World) (extra : List ℕ)
    → let n = population (segments (p ∷ ps)) in
      b.init_balance < 2 ^ 63
      → n < word_mod
      → removes trigger n ≡ true
      → IsSpread b.nbaccounts extra (p ∷ ps)
      → IsLaid w.mem (p ∷ ps)
      → let o = apply (at_last b trigger n (prev_of prev p ps) (last_place p ps)) w in
        (o.0 ≡ returned tt) × Changed b.nbaccounts extra 1 0 b.init_balance 0 w.mem o.1.mem (p ∷ ps)
at_last-removes b trigger prev p ps w extra hi small e s l =
    let k = length (last_place p ps).segment.accounts in
    let least = last-population p ps in
    let some_left : 0 < k = has_account b.nbaccounts extra p ps s in
    let (less, next) = one_less k some_left (omega arith) in
    rw (e, less)
      (removed-last b prev w extra p ps (k - 1) hi next
        (many trigger (population (segments (p ∷ ps))) e) s l)

pub not_negative : (v : ℕ) → is_negative v ≡ false → v < 2 ^ 63
unfolding is_negative
not_negative v h = ground arith

pub at_last-adds :
    (b : Bank) (trigger prev : ℕ) (p : Place) (ps : List Place) (w : World)
    → let n = population (segments (p ∷ ps)) in
      is_negative b.init_balance ≡ false
      → removes trigger n ≡ false
      → n + 1 < word_mod
      → first w.blocks ≢ 0
      → IsSpread b.nbaccounts (first w.blocks ∷ []) (p ∷ ps)
      → IsLaid w.mem (p ∷ ps)
      → let o = apply (at_last b trigger n (prev_of prev p ps) (last_place p ps)) w in
        (o.0 ≡ returned tt)
        × Changed b.nbaccounts (first w.blocks ∷ []) 0 1 0 b.init_balance w.mem o.1.mem (p ∷ ps)
at_last-adds b trigger prev p ps w neg e small f s l = rw e (added-last b p ps w neg small f s l)
