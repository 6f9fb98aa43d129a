-- ===== src/Grading/Measure/Results.antt =====
-- All runs of `measure` (grading/grading.cpp).
use performant_transactional.Base.{
  some, length, ℕ, zero, suc, ◌+◌, ◌/◌, ◌<◌, ◌≤◌, ◌∷◌, [], ◌++◌, ◌≡◌, refl, sym, ap, ◌∙◌, true,
  false, Option, none, List, arith,
}
use performant_transactional.Grading.Chrono as Chrono
use performant_transactional.Grading.Chrono.{Timespec}
use performant_transactional.Grading.Sync.{Status, done, quitting, Task, later}
use performant_transactional.Grading.Sync.Round.{has_error, last_error}
use performant_transactional.Grading.Measure.{
  Measured, measured, thrown, nth, median, join, one_run, check_run, repeats, measure, serve,
}
use performant_transactional.Grading.Measure.Median.{IsNthSmallest, median_lem}
use performant_transactional.Grading.Measure.Rounds.{
  idle, clock_of, clock_after, times_after, totals, runs, ArePresent, one_run-good, one_run-bad,
  join_lem,
}

-- The master's result names this error.
unfoldable pub Reports : Option ℕ → Measured → Type 0
Reports e (measured e' t p c) = e' ≡ e
Reports e thrown = ⊥

++_[] : (xs : List ℕ) → xs ++ [] ≡ xs
++_[] [] = refl
++_[] (x ∷ xs) = ap (λ ys. x ∷ ys) (++_[] xs)

++_∷ : (xs : List ℕ) (y : ℕ) (ys : List ℕ) → (xs ++ (y ∷ [])) ++ ys ≡ xs ++ (y ∷ ys)
++_∷ [] y ys = refl
++_∷ (x ∷ xs) y ys = ap (λ zs. x ∷ zs) (++_∷ xs y ys)

module _ (errors : ℕ → List (Option ℕ)) where
  -- No worker has an error in `n` runs from `k` on.
  unfoldable pub AreGood : ℕ → ℕ → Type 0
  AreGood k zero = Unit {0}
  AreGood k (suc n) = (has_error false (errors k) ≡ false) × AreGood (k + 1) n

  repeats-good :
      (n k nbrepeats time_init : ℕ) (acc : List ℕ) (st : Status) (r : Chrono.Chrono)
      (times : List (Option Timespec))
      → ArePresent errors
      → AreGood k (suc n)
      → serve (runs errors) k (repeats n nbrepeats time_init acc) (idle st r times) ≡ (
        measured none time_init
            (median nbrepeats (acc ++ totals n r times))
            (clock_after (suc n) r times).total,
        idle quitting (clock_after (suc n) r times) (times_after (suc n) times),
      )
  unfolding repeats check_run AreGood totals clock_after times_after idle
  repeats-good zero k nbrepeats time_init acc st r times present h =
      one_run-good errors k _ _ st r times present h.0
      ∙ join_lem errors (k + 1) _ _
      ∙ ap
          (λ ts. (
            measured none time_init (median nbrepeats ts) (clock_of r times).total,
            idle quitting (clock_of r times) (later (later times)),
          ))
          (sym (++_[] acc))
  repeats-good (suc n) k nbrepeats time_init acc st r times present h =
      one_run-good errors k _ _ st r times present h.0
      ∙ repeats-good n (k + 1) nbrepeats time_init (acc ++ ((clock_of r times).total ∷ [])) done
          (clock_of r times) (later (later times)) present h.1
      ∙ ap
          (λ ts. (
            measured none time_init (median nbrepeats ts) (clock_after (suc (suc n)) r times).total,
            idle quitting (clock_after (suc (suc n)) r times) (times_after (suc (suc n)) times),
          ))
          (++_∷ acc (clock_of r times).total (totals n (clock_of r times) (later (later times))))

  stops :
      (k i : ℕ) (onward : ℕ → Task Measured) (t : ℕ) (p : Option ℕ) (c : ℕ) (st : Status)
      (r : Chrono.Chrono) (times : List (Option Timespec))
      → ArePresent errors
      → i ≡ k
      → has_error false (errors i) ≡ true
      → let o =
          serve (runs errors) k (one_run onward (λ e. join (measured e t p c))) (idle st r times) in
        Reports (last_error none (errors i)) o.0 × (o.1.status ≡ quitting)
  unfolding Reports
  stops k i onward t p c st r times present e bad =
      let bad' : has_error false (errors k) ≡ true = rw (sym e) bad in
      rw
        (
          e,
          one_run-bad errors k onward (λ e'. join (measured e' t p c)) st r times present bad',
          join_lem errors (k + 1) (measured (last_error none (errors k)) t p c),
        )
        (refl, refl)

  repeats-bad :
      (n k i j nbrepeats time_init : ℕ) (acc : List ℕ) (st : Status) (r : Chrono.Chrono)
      (times : List (Option Timespec))
      → ArePresent errors
      → j ≤ n
      → i ≡ k + j
      → AreGood k j
      → has_error false (errors i) ≡ true
      → let o = serve (runs errors) k (repeats n nbrepeats time_init acc) (idle st r times) in
        Reports (last_error none (errors i)) o.0 × (o.1.status ≡ quitting)
  unfolding repeats check_run AreGood
  repeats-bad zero k i j nbrepeats time_init acc st r times present l e h bad =
      stops k i _ time_init (median nbrepeats acc) Chrono.invalid_tick st r times present
        (omega arith) bad
  repeats-bad (suc n) k i zero nbrepeats time_init acc st r times present l e h bad =
      stops k i _ time_init (nth acc (nbrepeats / 2)) Chrono.invalid_tick st r times present
        (omega arith) bad
  repeats-bad (suc n) k i (suc j) nbrepeats time_init acc st r times present l e h bad =
      rw
        (one_run-good errors k (λ t. repeats n nbrepeats time_init (acc ++ (t ∷ [])))
          (λ e'. join (measured e' time_init (nth acc (nbrepeats / 2)) Chrono.invalid_tick)) st r
          times present h.0)
        (repeats-bad n (k + 1) i j nbrepeats time_init (acc ++ ((clock_of r times).total ∷ [])) done
          (clock_of r times) (later (later times)) present (omega arith) (omega arith) h.1 bad)

length-totals :
    (n : ℕ) (r : Chrono.Chrono) (times : List (Option Timespec)) → length (totals n r times) ≡ n
unfolding totals
length-totals zero r times = refl
length-totals (suc n) r times = ap suc (length-totals n (clock_of r times) (later (later times)))

-- When no worker has an error in any of the runs of `measure`, of at least one worker and fewer than
-- 2 ^ 32 in each run, who end while the master waits, and there is at least one measurement: it returns
-- no error, the total of the clock after the first run, the median of the totals after each of the
-- nbrepeats next runs, and the total after the last one, and the workers are told to quit. The
-- median is a total such that at most nbrepeats / 2 of the totals are less, and more than that are
-- not greater. The clock is not reset between the runs.
pub measure-returned :
    (errors : ℕ → List (Option ℕ)) (nbrepeats : ℕ) (st : Status) (r : Chrono.Chrono)
    (times : List (Option Timespec))
    → 0 < nbrepeats
    → ArePresent errors
    → AreGood errors 0 (suc (suc nbrepeats))
    → (t : ℕ) × IsNthSmallest
        (nbrepeats / 2)
        t
        (totals nbrepeats (clock_of r times) (later (later times)))
      × (serve (runs errors) 0 (measure nbrepeats) (idle st r times) ≡ (
        measured none
            (clock_of r times).total
            (some t)
            (clock_after (suc (suc nbrepeats)) r times).total,
        idle quitting
            (clock_after (suc (suc nbrepeats)) r times)
            (times_after (suc (suc nbrepeats)) times),
      ))
unfolding measure AreGood clock_after times_after
measure-returned errors n st r times positive present h =
    let r' = clock_of r times in
    let times' = later (later times) in
    let (t, found, nth_smallest) =
      median_lem n (totals n r' times') positive (length-totals n r' times') in
    (
      t,
      nth_smallest,
      one_run-good errors 0 (λ t. repeats n n t [])
            (λ e. join (measured e Chrono.invalid_tick none Chrono.invalid_tick)) st r times present
            h.0
          ∙ repeats-good errors n 1 n r'.total [] done r' times' present h.1
          ∙ ap
              (λ m. (
                measured none r'.total m (clock_after (suc n) r' times').total,
                idle quitting (clock_after (suc n) r' times') (times_after (suc n) times'),
              ))
              found,
    )

-- When there are workers in each run of `measure`, fewer than 2 ^ 32, who end while the master waits, and the
-- first run in which a worker has an error is run `j`, of the nbrepeats + 2 from 0 on: `measure`
-- returns the last error of run `j`, and the workers are told to quit.
pub measure-Reports :
    (errors : ℕ → List (Option ℕ)) (nbrepeats j : ℕ) (st : Status) (r : Chrono.Chrono)
    (times : List (Option Timespec))
    → ArePresent errors
    → j < nbrepeats + 2
    → AreGood errors 0 j
    → has_error false (errors j) ≡ true
    → let o = serve (runs errors) 0 (measure nbrepeats) (idle st r times) in
      Reports (last_error none (errors j)) o.0 × (o.1.status ≡ quitting)
unfolding measure AreGood
measure-Reports errors n zero st r times present l h bad =
    stops errors 0 0 _ Chrono.invalid_tick none Chrono.invalid_tick st r times present refl bad
measure-Reports errors n (suc j) st r times present l h bad =
    rw
      (one_run-good errors 0 (λ t. repeats n n t [])
        (λ e. join (measured e Chrono.invalid_tick none Chrono.invalid_tick)) st r times present
        h.0)
      (repeats-bad errors n 1 (suc j) j n (clock_of r times).total [] done (clock_of r times)
        (later (later times)) present (omega arith) (omega arith) h.1 bad)
