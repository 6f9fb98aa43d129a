-- ===== src/Grading/Measure/Examples.antt =====
-- `measure` with two workers and one measurement, without an error and with one.
use performant_transactional.Base.{
  ℕ, zero, suc, [], ◌∷◌, ◌≡◌, refl, false, true, Option, none, some, List, arith,
}
use performant_transactional.Grading.Chrono as Chrono
use performant_transactional.Grading.Chrono.{Timespec}
use performant_transactional.Grading.Measure.Median.{IsNthSmallest}
use performant_transactional.Grading.Sync.{later, done, quitting}
use performant_transactional.Grading.Sync.Round.{has_error, last_error}
use performant_transactional.Grading.Measure.{measured, measure, serve}
use performant_transactional.Grading.Measure.Rounds.{
  idle, clock_of, clock_after, times_after, totals, runs, ArePresent,
}
use performant_transactional.Grading.Measure.Results.{
  AreGood, Reports, measure-returned, measure-Reports,
}

abbrev at_second : ℕ → Option Timespec
at_second n = some (record { tv_sec = n; tv_nsec = 0 })

abbrev clock : Chrono.Chrono
clock = record { total = 0; local = 0 }

abbrev silent : ℕ → List (Option ℕ)
silent k = none ∷ none ∷ []

-- The second worker has an error in the measurement.
abbrev loud : ℕ → List (Option ℕ)
loud zero = none ∷ none ∷ []
loud (suc zero) = none ∷ some 7 ∷ []
loud (suc (suc k)) = none ∷ []

silent-ArePresent : ArePresent silent
unfolding ArePresent
silent-ArePresent k = (omega arith, omega arith)

loud-ArePresent : ArePresent loud
unfolding ArePresent
loud-ArePresent zero = (omega arith, omega arith)
loud-ArePresent (suc zero) = (omega arith, omega arith)
loud-ArePresent (suc (suc k)) = (omega arith, omega arith)

loud-AreGood : AreGood loud 0 1
unfolding AreGood has_error
loud-AreGood = (refl, tt)

loud_error : has_error false (loud 1) ≡ true
unfolding has_error
loud_error = refl

-- The three totals of the measurements are not in order, since the clock runs backwards in one of them.
abbrev seconds : List (Option Timespec)
seconds =
    at_second 1
    ∷ at_second 2
    ∷ at_second 3
    ∷ at_second 5
    ∷ at_second 7
    ∷ at_second 6
    ∷ at_second 8
    ∷ at_second 20
    ∷ at_second 21
    ∷ at_second 30
    ∷ []

silent-AreGood : AreGood silent 0 5
unfolding AreGood has_error
silent-AreGood = (refl, (refl, (refl, (refl, (refl, tt)))))

measure-returned_example :
    (t : ℕ) × IsNthSmallest 1 t (totals 3 (clock_of clock seconds) (later (later seconds)))
    × (serve (runs silent) 0 (measure 3) (idle done clock seconds) ≡ (
      measured none (clock_of clock seconds).total (some t) (clock_after 5 clock seconds).total,
      idle quitting (clock_after 5 clock seconds) (times_after 5 seconds),
    ))
measure-returned_example =
    measure-returned silent 3 done clock seconds (omega arith) silent-ArePresent silent-AreGood

measure-Reports_example :
    let o = serve (runs loud) 0 (measure 1) (idle done clock seconds) in
    Reports (some 7) o.0 × (o.1.status ≡ quitting)
unfolding last_error
measure-Reports_example =
    measure-Reports loud 1 1 done clock seconds loud-ArePresent (omega arith) loud-AreGood
      loud_error
