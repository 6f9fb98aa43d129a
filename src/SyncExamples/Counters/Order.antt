-- ===== src/SyncExamples/Counters/Order.antt =====
-- The threads of counter2.c of sync-examples/ can always come to their end.
use performant_transactional.Base.{ℕ, zero, suc, ◌*◌, ◌^◌, ◌<◌, true, none, List, ◌≡◌, refl}
use performant_transactional.Process.{ret}
use performant_transactional.Process.Blocking.Alone.{attempts, Finishes, all-Finishes}
use performant_transactional.SyncExamples.Counters.{
  Shared, exec, count_locked, begin, after_turns, counter2,
}
use performant_transactional.SyncExamples.Counters.Ends.{count_locked-counted_up}

abbrev IsFree : Shared → Type 0
IsFree s = s.holder ≡ none

count_locked-Finishes : (i k : ℕ) → Finishes exec IsFree i (count_locked k)
unfolding Finishes attempts count_locked exec
count_locked-Finishes i zero = (0, λ s p. ((tt, refl), p))
count_locked-Finishes i (suc k) =
    let (n, f) = count_locked-Finishes i k in (suc (suc (suc (suc n))), λ s p. rw p (f _ refl))

-- For counter2.c, with all rounds of all threads together below 2 ^ 31, there is an order of turns in
-- which all threads return, and main finds that they counted up to the whole.
pub counter2-returned :
    (nbthreads runs : ℕ)
    → runs * nbthreads < 2 ^ 31
    → (is : List ℕ) × (((i : ℕ)
          → i < nbthreads
          → (after_turns count_locked nbthreads runs is).threads i ≡ ret tt)
        × (counter2 nbthreads runs is ≡ true))
unfolding after_turns begin
counter2-returned nbthreads runs room =
    let (is, (ends, stays)) =
      all-Finishes exec IsFree nbthreads (begin count_locked nbthreads runs) refl
        (λ i h. count_locked-Finishes i _) in
    let over = λ (i : ℕ) (h : i < nbthreads). (ends i h).1 in
    (is, (over, count_locked-counted_up nbthreads runs is room over))
