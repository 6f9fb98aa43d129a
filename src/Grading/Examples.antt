-- ===== src/Grading/Examples.antt =====
-- The theorems on grading/ at concrete banks and runs.
use performant_transactional.Base.{
  ℕ, Bool, true, false, some, List, [], ◌∷◌, ◌≡◌, ◌≢◌, ◌<◌, ◌≤◌, zero, suc, refl, arith, none,
  Option, ◌+◌, ◌-◌, ◌%◌,
}
use performant_transactional.Process.{◌>>◌, update, run, ret, act}
use performant_transactional.Grading.Shared.{World, read, returned, apply, is_negative}
use performant_transactional.Grading.Bank.{Bank, init_tx, long_tx}
use performant_transactional.Grading.Bank.Audit.{Segment, IsChain, AccountsAt, audit, long_tx-audit}
use performant_transactional.Grading.Bank.Start.{initial, init_tx-long_tx}
use performant_transactional.Grading.Bank.Countdown.{after_turns}
use performant_transactional.Grading.Bank.Countdown.Ends.{twice, countdown-true, countdown-zero}
use performant_transactional.Process.Turns.{count}
use performant_transactional.Grading.Chrono as Chrono
use performant_transactional.Grading.Chrono.{Timespec}
use performant_transactional.Grading.Sync.{exec, master_wait, failed}
use performant_transactional.Grading.Sync.Round.{
  notify_all, midway, ended, reported, lowered, has_error, last_error, master_wait-notify_all,
}
use performant_transactional.Grading.Chrono.{invalid_tick}
use performant_transactional.Grading.Measure.{measured}
use performant_transactional.Grading.Main.{
  Limits, limits_of, Evaluation, evaluated, main, exit_of, main-exit_of,
}
use performant_transactional.Grading.Transaction.{
  nomem, Library, finished, Closure, access, assign, after_read, after_attempt, run_closure,
  destruct, attempt, transactional,
}
use performant_transactional.Grading.Transaction.Protocol.{closed, monitored, IsOver}
use performant_transactional.Grading.Transaction.Protocol.Erasure.{erase}
use performant_transactional.Grading.Transaction.Protocol.Ends.{transactional-monitored}

abbrev two_accounts : Bank
two_accounts = record { nbaccounts = 2; init_balance = 5; start = 100 }

abbrev zeros : World
zeros = record { mem = λ a. 0; blocks = [] }

-- One segment of two accounts, with a parity.
abbrev opened : World
opened = record {
  mem = update (update (update (update (λ a. 0) 100 2) 116 3) 124 5) 132 2;
  blocks = [];
}

abbrev opened_segments : List Segment
opened_segments = record { parity = 3; accounts = 5 ∷ 2 ∷ [] } ∷ []

opened-IsChain : IsChain opened.mem 100 opened_segments
unfolding IsChain AccountsAt
opened-IsChain = (λ e. absurd (omega arith), refl, refl, (refl, (refl, tt)), refl)

long_tx-audit_example :
    apply (long_tx 2 two_accounts 7) opened ≡ (returned (some (audit 5 7 opened_segments)), opened)
long_tx-audit_example =
    long_tx-audit 2 two_accounts 7 opened_segments opened (omega arith) opened-IsChain

init_tx-long_tx_example :
    apply (init_tx two_accounts >> long_tx 2 two_accounts 7) zeros
    ≡ (returned (some (true, 2)), record zeros { mem = initial two_accounts zeros.mem })
unfolding is_negative
init_tx-long_tx_example =
    init_tx-long_tx 2 two_accounts 7 zeros (omega arith) (λ e. absurd (omega arith)) refl refl refl

-- A library that may refuse any read and any commit: its answers in turn, and commits when none is left.
abbrev answer : List Bool → Bool × List Bool
answer [] = (true, [])
answer (b ∷ bs) = (b, bs)

abbrev granted : Bool × List Bool → Option ℕ × List Bool
granted (true, bs) = (some 7, bs)
granted (false, bs) = (none, bs)

abbrev flaky : Library (List Bool)
flaky = record {
  tm_begin = λ ro bs. (some 1, bs);
  tm_end = λ tx bs. answer bs;
  tm_read = λ tx a bs. granted (answer bs);
  tm_write = λ tx a v bs. (true, bs);
  tm_alloc = λ tx n bs. (nomem, bs);
  tm_free = λ tx a bs. (true, bs);
}

-- It counts its calls that got as far as the read.
abbrev read_and_count : ℕ → Closure ℕ ℕ
read_and_count c = act (access (read 5)) (λ v. act (assign (c + 1)) (λ _. ret (v + c)))

-- A read is refused, then a commit, and the third attempt finds the variable as the second left it.
abbrev refusals : List Bool
refusals = false ∷ true ∷ false ∷ true ∷ true ∷ []

third_attempt : transactional flaky 5 true read_and_count 0 refusals ≡ ((some (finished 8), 2), [])
unfolding transactional attempt run_closure after_read destruct after_attempt
third_attempt = refl

transactional-monitored_example :
    let o = transactional (monitored flaky) 5 true read_and_count 0 (closed 0 false, refusals) in
    (erase o ≡ transactional flaky 5 true read_and_count 0 refusals) × IsOver 5 0 o.0.0 o.1.0
transactional-monitored_example = transactional-monitored flaky 5 true read_and_count 0 refusals

abbrev second : ℕ → Timespec
second n = record { tv_sec = n; tv_nsec = 5 }

stop-start_example :
    (Chrono.convert (some (second 4)) ≢ Chrono.invalid_tick)
    × ((Chrono.stop
          (some (second 4))
          (Chrono.start (some (second 1)) (record { total = 7; local = 0 }))).total
        ≡ (7 + (Chrono.convert (some (second 4)) - Chrono.convert (some (second 1))))
          % Chrono.tick_mod)
unfolding Chrono.convert
stop-start_example =
    Chrono.stop-start (record { total = 7; local = 0 }) (second 1) (second 4) (omega arith)

-- Three workers, the second of which reports the message 8.
abbrev three_reports : List (Option ℕ)
three_reports = none ∷ some 8 ∷ none ∷ []

abbrev running_clock : Chrono.Chrono
running_clock = record { total = 0; local = 1000000005 }

master_wait-notify_all_example :
    run exec master_wait
      (notify_all 3 three_reports (midway 3 running_clock (some (second 4) ∷ []) 0 false none))
    ≡ (failed (some 8), lowered (ended 3 running_clock (some (second 4) ∷ []) true (some 8)))
unfolding reported has_error last_error
master_wait-notify_all_example =
    master_wait-notify_all three_reports running_clock (some (second 4) ∷ []) none (omega arith)
      (omega arith)

-- Two workers of two rounds each, in turns.
abbrev four_left : World
four_left = record { mem = λ a. 4; blocks = [] }

abbrev turns : List ℕ
turns = 0 ∷ 1 ∷ 1 ∷ 0 ∷ 1 ∷ 0 ∷ 0 ∷ 1 ∷ []

countdown-true_example : (after_turns 3 2 2 four_left turns).threads 1 ≡ ret true
unfolding twice count
countdown-true_example =
    countdown-true 3 2 2 four_left turns 1 refl (omega arith) (omega arith) (omega arith)

enough_turns : (i : ℕ) → i < 2 → twice 2 ≤ count i turns
unfolding twice count
enough_turns zero h = omega arith
enough_turns (suc zero) h = omega arith
enough_turns (suc (suc i)) h = absurd (omega arith)

countdown-zero_example : (after_turns 3 2 2 four_left turns).shared.world.mem 3 ≡ 0
countdown-zero_example = countdown-zero 3 2 2 four_left turns refl (omega arith) enough_turns

-- The second library has an error.
abbrev three_libraries : List (Limits → Evaluation)
three_libraries =
    (λ l. evaluated (measured none 8 (some 9) 10))
    ∷ (λ l. evaluated (measured (some 4) 1 (some 2) 3))
    ∷ []

main-exit_of_example :
    let l = limits_of 5 6 7 in
    ((l.init ≢ invalid_tick) × (l.perf ≢ invalid_tick) × (l.chck ≢ invalid_tick))
    × ((80 ≤ l.init) × (96 ≤ l.perf) × (112 ≤ l.chck))
    × (main 0 ((λ l'. evaluated (measured none 5 (some 6) 7)) ∷ three_libraries) ≡ 1)
unfolding exit_of
main-exit_of_example =
    main-exit_of 0 (λ l. evaluated (measured none 5 (some 6) 7)) three_libraries 5 (some 6) 7 refl
      (omega arith) (omega arith) (omega arith)
