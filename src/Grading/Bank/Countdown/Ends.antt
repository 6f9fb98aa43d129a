-- ===== src/Grading/Bank/Countdown/Ends.antt =====
-- The end of the loop of `check` (grading/workload.hpp), in any order of turns.
use performant_transactional.Base.{
  Bool, List, ap, arith, false, if◌then◌else◌, length, refl, suc, sym, true, zero, ℕ, ◌*◌, ◌<◌, ◌∙◌,
  ◌≡◌, ◌≤◌,
}
use performant_transactional.Process.{ret, System}
use performant_transactional.Process.Turns.{count, IsWithin, interleave-IsWithin}
use performant_transactional.Process.Rely.{
  IsSound, interleave-IsSound, start-IsSound, Post-returned,
}
use performant_transactional.Grading.Shared.{word_mod, World}
use performant_transactional.Grading.Bank.Countdown.{
  countdown, Step, Result, Board, step, rounds_of, begin, after_turns,
}
use performant_transactional.Process.Totals.{total, total-const}
use performant_transactional.Grading.Bank.Countdown.Rounds.{counting, IsThrough, countdown-Meets}

rounds_of-below : (workers rounds i : ℕ) → i < workers → rounds_of workers rounds i ≡ rounds
unfolding rounds_of
rounds_of-below workers rounds i h = ground arith

rounds_of-positive : (workers rounds i : ℕ) → 0 < rounds_of workers rounds i → i < workers
unfolding rounds_of
rounds_of-positive workers rounds i h = ground arith

module _ (start workers rounds : ℕ) (w : World) where
  turns-IsSound :
      (is : List ℕ)
      → w.mem start ≡ rounds * workers
      → rounds * workers < word_mod
      → IsSound
          (step start)
          (counting start workers)
          IsThrough
          0
          (after_turns start workers rounds w is)
  unfolding begin after_turns
  turns-IsSound is e room =
      interleave-IsSound (step start) (counting start workers) IsThrough is y (
        start-IsSound (step start) (counting start workers) IsThrough (length is) y
          (e ∙ sym sum, rw sum room)
          (λ i.
            countdown-Meets start workers i (rounds_of workers rounds i) y.shared
              (rounds_of-positive workers rounds i) refl))
    where
      y : System Step Result Board Bool
      y = begin start workers rounds w

      sum : total workers (rounds_of workers rounds) ≡ rounds * workers
      sum = total-const workers rounds (rounds_of workers rounds) (rounds_of-below workers rounds)

threads-true :
    (start workers rounds : ℕ) (w : World) (is : List ℕ) (i : ℕ) (r : Bool)
    → w.mem start ≡ rounds * workers
    → rounds * workers < word_mod
    → (after_turns start workers rounds w is).threads i ≡ ret r
    → r ≡ true
unfolding IsThrough
threads-true start workers rounds w is i r e room h =
    (Post-returned (step start) (counting start workers) IsThrough 0 i r
      (after_turns start workers rounds w is) (turns-IsSound start workers rounds w is e room) h).0

if-IsWithin :
    (n k : ℕ) (c : Bool)
    → IsWithin n (countdown k)
    → IsWithin n (if c then countdown k else ret false)
unfolding IsWithin
if-IsWithin n k true h = h
if-IsWithin n k false h = tt

unfoldable pub twice : ℕ → ℕ
twice zero = zero
twice (suc n) = suc (suc (twice n))

countdown-IsWithin : (k : ℕ) → IsWithin (twice k) (countdown k)
unfolding IsWithin countdown twice
countdown-IsWithin zero = tt
countdown-IsWithin (suc k) = λ _ c. if-IsWithin (twice k) k c (countdown-IsWithin k)

-- When the counter starts at `rounds` for each worker, which is less than 2 ^ 64, and each transaction
-- is one step: in whatever order the workers take their turns, a worker that has had two turns for
-- each round has returned, and it has returned true, that is, the value never exceeded the last one
-- that it read.
pub countdown-true :
    (start workers rounds : ℕ) (w : World) (is : List ℕ) (i : ℕ)
    → w.mem start ≡ rounds * workers
    → rounds * workers < word_mod
    → i < workers
    → twice rounds ≤ count i is
    → (after_turns start workers rounds w is).threads i ≡ ret true
unfolding begin after_turns
countdown-true start workers rounds w is i e room below enough =
    reached.1 ∙ ap ret (threads-true start workers rounds w is i reached.0 e room reached.1)
  where
    reached : (r : Bool) × ((after_turns start workers rounds w is).threads i ≡ ret r)
    reached =
        interleave-IsWithin (step start) is (twice rounds) i (begin start workers rounds w)
          (rw (rounds_of-below workers rounds i below) (countdown-IsWithin rounds)) enough

-- When the counter starts at `rounds` for each worker, which is less than 2 ^ 64, and each transaction
-- is one step: in whatever order the workers take their turns, when each has had two turns for each
-- round the counter is 0.
pub countdown-zero :
    (start workers rounds : ℕ) (w : World) (is : List ℕ)
    → w.mem start ≡ rounds * workers
    → rounds * workers < word_mod
    → ((i : ℕ) → i < workers → twice rounds ≤ count i is)
    → (after_turns start workers rounds w is).shared.world.mem start ≡ 0
unfolding IsThrough
countdown-zero start workers rounds w is e room enough =
    sound.inv.0 ∙ total-const workers 0 _ through ∙ omega arith
  where
    sound :
        IsSound
          (step start)
          (counting start workers)
          IsThrough
          0
          (after_turns start workers rounds w is)
    sound = turns-IsSound start workers rounds w is e room

    through : (i : ℕ) → i < workers → (after_turns start workers rounds w is).shared.left i ≡ 0
    through i g =
        (Post-returned (step start) (counting start workers) IsThrough 0 i true
          (after_turns start workers rounds w is) sound
          (countdown-true start workers rounds w is i e room g (enough i g))).1
