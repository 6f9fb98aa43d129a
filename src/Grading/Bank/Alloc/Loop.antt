-- ===== src/Grading/Bank/Alloc/Loop.antt =====
-- The loop of `alloc_tx` of `WorkloadBank` (grading/workload.hpp) up to the last segment.
use performant_transactional.Base.{
  ℕ, zero, suc, ◌+◌, ◌<◌, Bool, false, ◌&&◌, some, List, [], ◌∷◌, ◌≡◌, ◌≢◌, refl, ap, ◌∙◌, ltb,
  ◌==◌, if◌then◌else◌, length, arith,
}
use performant_transactional.Process.{ret}
use performant_transactional.Grading.Shared.{
  word_mod, add_word, sub_word, Tx, World, apply, read_cell,
}
use performant_transactional.Grading.Shared.Apply.{apply-if, resume, apply-bind}
use performant_transactional.Grading.Bank.{
  Bank, count_at, next_at, remove_account, add_account, alloc_loop, alloc_tx,
}
use performant_transactional.Grading.Bank.Audit.{population}
use performant_transactional.Grading.Bank.Layout.{Place, segments, IsLaid}
use performant_transactional.Grading.Bank.Layout.Changes.{last_place, before_last}

-- The previous address when the loop is at the last segment.
abbrev pub prev_of : ℕ → Place → List Place → ℕ
prev_of prev p [] = prev
prev_of prev p (q ∷ ps) = prev_of p.address q ps

pub prev-before_last :
    (prev : ℕ) (p q : Place) (ps : List Place)
    → prev_of prev p (q ∷ ps) ≡ (before_last p q ps).address
prev-before_last prev p q [] = refl
prev-before_last prev p q (r ∷ ps) = prev-before_last p.address q r ps

-- Whether an account is to be removed.
abbrev pub removes : ℕ → ℕ → Bool
removes trigger count = ltb trigger count && ltb 2 count

-- What the loop does at the last segment, which has `n` accounts.
abbrev pub at_end : Bank → ℕ → ℕ → ℕ → ℕ → ℕ → Tx (Unit {0})
at_end b trigger count prev start n =
    if removes trigger count
    then remove_account b prev start (sub_word n 1)
    else add_account b start n

abbrev pub at_last : Bank → ℕ → ℕ → ℕ → Place → Tx (Unit {0})
at_last b trigger count prev q = at_end b trigger count prev q.address (length q.segment.accounts)

pub nonzero : (n : ℕ) → n ≢ 0 → (n == 0) ≡ false
nonzero n d = ground arith

pub small_sum : (a b c : ℕ) → a + (b + c) < word_mod → add_word a b ≡ a + b
unfolding add_word
small_sum a b c h = omega arith

pub add_assoc : (a b c : ℕ) → a + b + c ≡ a + (b + c)
add_assoc a b c = omega arith

pub last_sum : (a b : ℕ) → a + (b + 0) < word_mod → add_word a b ≡ a + (b + 0)
unfolding add_word
last_sum a b h = omega arith

pub alloc_loop-suc :
    (fuel : ℕ) (b : Bank) (trigger count prev start : ℕ) (w : World)
    → let n = w.mem (count_at start) in
      let next = w.mem (next_at start) in
      let count' = add_word count n in
      apply (alloc_loop (suc fuel) b trigger count prev start) w ≡ (
        if next == 0
        then resume (λ u. ret (some tt)) (apply (at_end b trigger count' prev start n) w)
        else apply (alloc_loop fuel b trigger count' start next) w)
unfolding apply alloc_loop read_cell
alloc_loop-suc fuel b trigger count prev start w =
    let next = w.mem (next_at start) in
    let onward =
      apply (alloc_loop fuel b trigger (add_word count (w.mem (count_at start))) start next) w in
    apply-if (next == 0) _ _ w
    ∙ ap (λ o. if next == 0 then o else onward)
        (apply-bind
          (at_end b trigger (add_word count (w.mem (count_at start))) prev start
            (w.mem (count_at start)))
          (λ u. ret (some tt)) w)

pub alloc_loop-IsLaid :
    (fuel : ℕ) (b : Bank) (trigger count prev : ℕ) (p : Place) (ps : List Place) (w : World)
    → length ps < fuel
    → count + population (segments (p ∷ ps)) < word_mod
    → IsLaid w.mem (p ∷ ps)
    → apply (alloc_loop fuel b trigger count prev p.address) w
      ≡ resume
          (λ u. ret (some tt))
          (apply
            (at_last b trigger
              (count + population (segments (p ∷ ps)))
              (prev_of prev p ps)
              (last_place p ps))
            w)
unfolding IsLaid population segments
alloc_loop-IsLaid zero b trigger count prev p ps w h small l = absurd (omega arith)
alloc_loop-IsLaid (suc fuel) b trigger count prev p [] w h small l =
    alloc_loop-suc fuel b trigger count prev p.address w
    ∙ rw (l.1, l.4, last_sum count (length p.segment.accounts) small) refl
alloc_loop-IsLaid (suc fuel) b trigger count prev p (q ∷ ps) w h small l =
    let n = length p.segment.accounts in
    let total = population (segments (q ∷ ps)) in
    alloc_loop-suc fuel b trigger count prev p.address w
    ∙ rw (l.1, l.4, nonzero q.address l.5.0, small_sum count n total small)
        (alloc_loop-IsLaid fuel b trigger (count + n) p.address q ps w (omega arith) (omega arith)
            l.5
          ∙ ap
              (λ c.
                resume (λ u. ret (some tt))
                  (apply (at_last b trigger c (prev_of p.address q ps) (last_place q ps)) w))
              (add_assoc count n total))

pub zero_add : (n : ℕ) → 0 + n ≡ n
zero_add n = omega arith

pub alloc_tx_lem :
    (fuel : ℕ) (b : Bank) (trigger : ℕ) (p : Place) (ps : List Place) (w : World)
    → length ps < fuel
    → b.start ≡ p.address
    → population (segments (p ∷ ps)) < word_mod
    → IsLaid w.mem (p ∷ ps)
    → apply (alloc_tx fuel b trigger) w
      ≡ resume
          (λ u. ret (some tt))
          (apply
            (at_last b trigger (population (segments (p ∷ ps))) (prev_of 0 p ps) (last_place p ps))
            w)
unfolding alloc_tx
alloc_tx_lem fuel b trigger p ps w h s small l =
    let n = population (segments (p ∷ ps)) in
    ap (λ a. apply (alloc_loop fuel b trigger 0 0 a) w) s
    ∙ alloc_loop-IsLaid fuel b trigger 0 0 p ps w h (omega arith) l
    ∙ ap
        (λ c.
          resume (λ u. ret (some tt))
            (apply (at_last b trigger c (prev_of 0 p ps) (last_place p ps)) w))
        (zero_add n)
