-- ===== src/Grading/Bank/Alloc.antt =====
-- `alloc_tx` of `WorkloadBank` (grading/workload.hpp) over the whole list of segments, and the `long_tx`
-- that follows it.
pub mod Removal
pub mod Creation
pub mod Extension
pub mod Loop
pub mod Ending
pub mod Sums
use performant_transactional.Base.{
  ℕ, zero, suc, ◌+◌, ◌-◌, ◌*◌, ◌%◌, ◌≤◌, ◌<◌, ◌^◌, Bool, true, false, ◌&&◌, Option, none, some,
  List, [], ◌∷◌, ◌≡◌, ◌≢◌, refl, sym, ap, ap₂, ◌∙◌, inl, inr, ltb, ltb→lt, lt→ltb, ◌==◌, ==_iff,
  if◌then◌else◌, length, arith, Bool-cases,
}
use performant_transactional.Process.{ret, ◌>>=◌, ◌>>◌, update}
use performant_transactional.Grading.Shared.{
  word_mod, add_word, sub_word, is_negative, Tx, World, first, Outcome, returned, apply, read_cell,
}
use performant_transactional.Grading.Shared.Apply.{apply-if, resume, apply-bind, resume-returned}
use performant_transactional.Grading.Bank.{
  Bank, count_at, next_at, remove_account, add_account, alloc_loop, alloc_tx, long_tx,
}
use performant_transactional.Grading.Bank.Audit.{
  IsChain, has_debt, population, money, audit, long_tx-audit,
}
use performant_transactional.Grading.Bank.Layout.{
  Place, segments, head_of, IsLaid, starts-IsChain, length-segments,
}
use performant_transactional.Grading.Bank.Layout.Changes.{
  IsSpread, Change, Changed, last_place, before_last, IsLaid-last, IsLaid-before_last,
  last-population, IsSpread-last, IsSpread-before_last, Change-last, Change-before_last,
}
use performant_transactional.Grading.Bank.Alloc.Removal.{
  shortened-Change, merged-Change, remove_account-shortened, remove_account-merged,
}
use performant_transactional.Grading.Bank.Alloc.Creation.{lengthened-Change, add_account-lengthened}
use performant_transactional.Grading.Bank.Alloc.Extension.{extended-Change, add_account-extended}
use performant_transactional.Grading.Bank.Alloc.Loop.{
  prev_of, prev-before_last, removes, at_last, nonzero, alloc_tx_lem,
}
use performant_transactional.Grading.Bank.Alloc.Ending.{at_last-removes, at_last-adds, not_negative}
use performant_transactional.Grading.Bank.Alloc.Sums.{
  audit-true, true-audit, balance_less, balance_more, product_suc,
}

long_tx-Change :
    (fuel : ℕ) (b : Bank) (k c : ℕ) (extra : List ℕ) (d e x y : ℕ) (m : ℕ → ℕ) (w' : World)
    (ps qs : List Place)
    → length ps + 1 < fuel
    → b.start ≡ head_of ps
    → Change b.nbaccounts extra d e x y m w'.mem ps qs
    → has_debt (segments ps) ≡ false
    → money (segments qs) % word_mod ≡ b.init_balance * c % word_mod
    → population (segments qs) ≡ c
    → c < word_mod
    → (apply (long_tx fuel b k) w').0 ≡ returned (some (true, c))
long_tx-Change fuel b k c extra d e x y m w' ps qs h s ch debt balanced people small =
    let size = ch.size in
    rw
      (
        long_tx-audit fuel b k (segments qs) w'
            (longer (length (segments qs)) (rw (length-segments ps) at size))
            (starts-IsChain w'.mem b.start qs (s ∙ sym ch.head) ch.laid),
        true-audit b.init_balance k c qs (ch.solvent debt) balanced people small,
      )
      refl
  where
    longer : (n : ℕ) → n ≤ length ps + 1 → n < fuel
    longer n l = omega arith

returned_same : {a b : Bool × ℕ} → returned (some a) ≡ returned (some b) → a ≡ b
returned_same {a} {b} e = cc

module _ (fuel : ℕ) (b : Bank) (trigger k : ℕ) (p : Place) (ps : List Place) (w : World) where
  Before : Type 0
  Before =
      (has_debt (segments (p ∷ ps)) ≡ false)
      × (money (segments (p ∷ ps)) % word_mod
          ≡ b.init_balance * (population (segments (p ∷ ps)) % word_mod) % word_mod)
      × (population (segments (p ∷ ps)) % word_mod ≡ population (segments (p ∷ ps)))

  After : ℕ → World → Type 0
  After c w' = (apply (long_tx fuel b k) w').0 ≡ returned (some (true, c))

  After-true :
      (w' : World) (c : Bool) (x y : ℕ) → c ≡ true → After x w' → After (if c then x else y) w'
  After-true w' true x y e h = h
  After-true w' false x y e h = absurd cc

  After-false :
      (w' : World) (c : Bool) (x y : ℕ) → c ≡ false → After y w' → After (if c then x else y) w'
  After-false w' true x y e h = absurd cc
  After-false w' false x y e h = h

  After-less :
      (extra : List ℕ) (w' : World)
      → length (p ∷ ps) + 1 < fuel
      → b.start ≡ p.address
      → population (segments (p ∷ ps)) + 1 < word_mod
      → Before
      → Changed b.nbaccounts extra 1 0 b.init_balance 0 w.mem w'.mem (p ∷ ps)
      → After (population (segments (p ∷ ps)) - 1) w'
  unfolding Before After
  After-less extra w' h s small audited (qs, c) =
      let n = population (segments (p ∷ ps)) in
      let fewer = c.people in
      long_tx-Change fuel b k (n - 1) extra 1 0 b.init_balance 0 w.mem w' (p ∷ ps) qs h s c
        audited.0
        (balance_less (money (segments (p ∷ ps))) (money (segments qs)) b.init_balance
          (b.init_balance * (n - 1)) c.wealth
          (audited.1
            ∙ ap (λ t. b.init_balance * t % word_mod) (audited.2 ∙ omega arith)
            ∙ ap (λ t. t % word_mod) (product_suc b.init_balance (n - 1))))
        (omega arith) (omega arith)

  After-more :
      (extra : List ℕ) (w' : World)
      → length (p ∷ ps) + 1 < fuel
      → b.start ≡ p.address
      → population (segments (p ∷ ps)) + 1 < word_mod
      → Before
      → Changed b.nbaccounts extra 0 1 0 b.init_balance w.mem w'.mem (p ∷ ps)
      → After (population (segments (p ∷ ps)) + 1) w'
  unfolding Before After
  After-more extra w' h s small audited (qs, c) =
      let n = population (segments (p ∷ ps)) in
      let more = c.people in
      long_tx-Change fuel b k (n + 1) extra 0 1 0 b.init_balance w.mem w' (p ∷ ps) qs h s c
        audited.0
        (balance_more (money (segments (p ∷ ps))) (money (segments qs)) b.init_balance
            (b.init_balance * n) c.wealth
            (audited.1 ∙ ap (λ t. b.init_balance * t % word_mod) audited.2)
          ∙ ap (λ t. t % word_mod) (sym (product_suc b.init_balance n)))
        (omega arith) small

  alloc-Audited :
      length (p ∷ ps) + 1 < fuel
      → b.start ≡ p.address
      → is_negative b.init_balance ≡ false
      → population (segments (p ∷ ps)) + 1 < word_mod
      → first w.blocks ≢ 0
      → IsSpread b.nbaccounts (first w.blocks ∷ []) (p ∷ ps)
      → IsLaid w.mem (p ∷ ps)
      → Before
      → let n = population (segments (p ∷ ps)) in
        let o =
          resume
            (λ (u : Unit {0}). ret (some tt))
            (apply (at_last b trigger n (prev_of 0 p ps) (last_place p ps)) w) in
        (o.0 ≡ returned (some tt)) × After (if removes trigger n then n - 1 else n + 1) o.1
  alloc-Audited h s neg small f spread l audited =
      let n = population (segments (p ∷ ps)) in
      let extra = first w.blocks ∷ [] in
      let last = apply (at_last b trigger n (prev_of 0 p ps) (last_place p ps)) w in
      let target = if removes trigger n then n - 1 else n + 1 in
      elim (Bool-cases (removes trigger n)) [
        | inl e ↦
            let (done, change) =
              at_last-removes b trigger 0 p ps w extra (not_negative b.init_balance neg)
                (omega arith) e spread l in
            resume-returned last (some tt) (After target) tt done (
              After-true last.1 _ (n - 1) (n + 1) e
                (After-less extra last.1 h s small audited change))
        | inr e ↦
            let (done, change) = at_last-adds b trigger 0 p ps w neg e small f spread l in
            resume-returned last (some tt) (After target) tt done (
              After-false last.1 _ (n - 1) (n + 1) e
                (After-more extra last.1 h s small audited change))
      ]

-- Where the words hold segments, at least one, that have accounts and room for nbaccounts of them and do not
-- overlap, neither with the block that the next allocation gets, `init_balance` is not negative, the
-- number of accounts is below 2 ^ 64 - 1, and there is fuel for two more segments than there are:
-- when a `long_tx` finds no inconsistency, `alloc_tx` returns, and a `long_tx` after it finds none
-- either, and an account less if there were more than `trigger` and more than two, and otherwise an
-- account more.
pub alloc_tx-long_tx :
    (fuel : ℕ) (b : Bank) (trigger nbaccounts : ℕ) (p : Place) (ps : List Place) (w : World)
    → length (p ∷ ps) + 1 < fuel
    → b.start ≡ p.address
    → is_negative b.init_balance ≡ false
    → population (segments (p ∷ ps)) + 1 < word_mod
    → first w.blocks ≢ 0
    → IsSpread b.nbaccounts (first w.blocks ∷ []) (p ∷ ps)
    → IsLaid w.mem (p ∷ ps)
    → let n = population (segments (p ∷ ps)) in
      let o = apply (alloc_tx fuel b trigger) w in
      (apply (long_tx fuel b nbaccounts) w).0 ≡ returned (some (true, n))
      → (o.0 ≡ returned (some tt))
        × ((apply (long_tx fuel b nbaccounts) o.1).0
            ≡ returned (some (true, if ltb trigger n && ltb 2 n then n - 1 else n + 1)))
unfolding Before After
alloc_tx-long_tx fuel b trigger k p ps w h s neg small f spread l found =
    rw (alloc_tx_lem fuel b trigger p ps w (omega arith) s (omega arith) l) (
      alloc-Audited fuel b trigger k p ps w h s neg small f spread l (
        audit-true b.init_balance k (population (segments (p ∷ ps))) (p ∷ ps) (
          returned_same (
            sym (
              ap (λ o. o.0)
                (long_tx-audit fuel b k (segments (p ∷ ps)) w
                  (rw (length-segments (p ∷ ps)) (omega arith))
                  (starts-IsChain w.mem b.start (p ∷ ps) s l)))
            ∙ found))))
