-- ===== src/SyncExamples/Examples.antt =====
-- The programs of sync-examples/ with few threads and rounds.
use performant_transactional.Base.{
  ℕ, zero, suc, ◌+◌, ◌*◌, ◌<◌, ◌≤◌, true, false, List, [], ◌∷◌, ◌≡◌, refl, arith,
}
use performant_transactional.Process.{ret}
use performant_transactional.Process.Turns.{count}
use performant_transactional.Process.Blocking.{interleave, turn}
use performant_transactional.Process.Blocking.Progress.{alternate}
use performant_transactional.SyncExamples.Counters
use performant_transactional.SyncExamples.Counters.{
  count_locked, count_fetch, count_atomic, counted_up,
}
use performant_transactional.SyncExamples.Counters.Lost.{lockstep, count_atomic-counted_up}
use performant_transactional.SyncExamples.Counters.Ends.{
  count_locked-counted_up, count_fetch-counted_up,
}
use performant_transactional.SyncExamples.Counters.Order.{counter2-returned}
use performant_transactional.SyncExamples.Elections.Twice
use performant_transactional.SyncExamples.Elections.Twice.{election3-lockstep}
use performant_transactional.SyncExamples.Elections.Order.{election2-returned}
use performant_transactional.SyncExamples.Elections
use performant_transactional.SyncExamples.Elections.{round_locked, round_atomic, round_exchange}
use performant_transactional.SyncExamples.Elections.Ends.{
  round_locked-looks_correct, round_exchange-looks_correct,
}
use performant_transactional.SyncExamples.Queues
use performant_transactional.SyncExamples.Queues.{
  produce_locked, consume_locked, produce_atomic, consume_atomic,
}
use performant_transactional.SyncExamples.Queues.Contract.{Handed}
use performant_transactional.SyncExamples.Queues.Ends.{
  consume_atomic-Handed, consume_locked-looks_correct,
}
use performant_transactional.SyncExamples.Queues.Finish.{procon-looks_correct}

-- Thread 1 finds the lock taken once.
abbrev counter_turns : List ℕ
counter_turns = 0 ∷ 1 ∷ 0 ∷ 0 ∷ 0 ∷ 1 ∷ 1 ∷ 1 ∷ 1 ∷ []

counter_returned :
    (i : ℕ) → i < 2 → (Counters.after_turns count_locked 2 1 counter_turns).threads i ≡ ret tt
unfolding Counters.after_turns Counters.begin Counters.runs_of Counters.exec Counters.spend
    count_locked interleave turn
counter_returned zero h = refl
counter_returned (suc zero) h = refl
counter_returned (suc (suc i)) h = absurd (omega arith)

count_locked-counted_up_example : Counters.counter2 2 1 counter_turns ≡ true
count_locked-counted_up_example =
    count_locked-counted_up 2 1 counter_turns (omega arith) counter_returned

abbrev fetch_turns : List ℕ
fetch_turns = 0 ∷ 1 ∷ 1 ∷ 0 ∷ []

fetch_enough : (i : ℕ) → i < 2 → 2 ≤ count i fetch_turns
unfolding count
fetch_enough zero h = omega arith
fetch_enough (suc zero) h = omega arith
fetch_enough (suc (suc i)) h = absurd (omega arith)

count_fetch-counted_up_example : Counters.counter4 2 2 fetch_turns ≡ true
count_fetch-counted_up_example = count_fetch-counted_up 2 2 fetch_turns (omega arith) fetch_enough

count_atomic-counted_up_example :
    let y = Counters.after_turns count_atomic 2 3 (lockstep 3) in
    (y.threads 0 ≡ ret tt)
    × (y.threads 1 ≡ ret tt)
    × (y.shared.counter ≡ 3)
    × (Counters.counter3 2 3 (lockstep 3) ≡ false)
count_atomic-counted_up_example = count_atomic-counted_up 3 (omega arith) (omega arith)

-- Thread 1 comes first, and thread 0 finds the lock taken once.
abbrev election_turns : List ℕ
election_turns = 1 ∷ 0 ∷ 1 ∷ 1 ∷ 1 ∷ 1 ∷ 0 ∷ 0 ∷ 0 ∷ []

election_returned :
    (i : ℕ) → i < 2 → (Elections.after_turns round_locked 2 1 election_turns).threads i ≡ ret tt
unfolding Elections.after_turns Elections.begin Elections.rounds_of Elections.exec Elections.elect
    round_locked interleave turn
election_returned zero h = refl
election_returned (suc zero) h = refl
election_returned (suc (suc i)) h = absurd (omega arith)

round_locked-looks_correct_example : Elections.election2 2 1 election_turns ≡ true
round_locked-looks_correct_example =
    round_locked-looks_correct 2 1 election_turns (omega arith) election_returned

round_exchange-looks_correct_example : Elections.election4 2 1 fetch_turns ≡ true
round_exchange-looks_correct_example =
    round_exchange-looks_correct 2 1 fetch_turns (omega arith) fetch_enough

-- What `rand` returns is told apart by round and place.
abbrev drawn : ℕ → ℕ → ℕ
drawn r i = 10 * r + i + 1

-- The buffer has one element: in the second round the producer has to wait.
consume_atomic-Handed_example :
    Handed 1 1 2
      (Queues.after_turns 1 1 2 drawn (produce_atomic 1) (consume_atomic 1) (alternate 5)).shared
consume_atomic-Handed_example = consume_atomic-Handed 1 1 2 drawn (alternate 5) (omega arith)

procon-looks_correct_example :
    let y =
      interleave
        (Queues.exec 1 drawn)
        (alternate 14)
        (Queues.after_turns 1 1 2 drawn (produce_atomic 1) (consume_atomic 1) (0 ∷ 1 ∷ 1 ∷ [])) in
    (y.threads 0 ≡ ret tt) × (y.threads 1 ≡ ret tt) × (Queues.looks_correct 1 0 2 y.shared ≡ true)
procon-looks_correct_example =
    procon-looks_correct 1 1 2 drawn (0 ∷ 1 ∷ 1 ∷ []) 14 (omega arith) (omega arith) (omega arith)

queue_returned :
    (Queues.after_turns 1 1 1 drawn (produce_locked 1) (consume_locked 1) (alternate 9)).threads 1
    ≡ ret tt
unfolding Queues.after_turns Queues.begin Queues.rounds Queues.each Queues.exec interleave turn
    alternate
queue_returned = refl

consume_locked-looks_correct_example : Queues.procon2 1 1 1 drawn (alternate 9) ≡ true
consume_locked-looks_correct_example =
    consume_locked-looks_correct 1 1 1 drawn (alternate 9) (omega arith) queue_returned

counter2-returned_example :
    (is : List ℕ) × (((i : ℕ)
        → i < 2
        → (Counters.after_turns count_locked 2 3 is).threads i ≡ ret tt)
      × (Counters.counter2 2 3 is ≡ true))
counter2-returned_example = counter2-returned 2 3 (omega arith)

election2-returned_example :
    (is : List ℕ) × (((i : ℕ)
        → i < 2
        → (Elections.after_turns round_locked 2 3 is).threads i ≡ ret tt)
      × (Elections.election2 2 3 is ≡ true))
election2-returned_example = election2-returned 2 3 (omega arith)

election3-lockstep_example :
    ((Elections.after_turns round_atomic 2 3 (Twice.lockstep 3)).threads 0 ≡ ret tt)
    × ((Elections.after_turns round_atomic 2 3 (Twice.lockstep 3)).threads 1 ≡ ret tt)
    × (Elections.election3 2 3 (Twice.lockstep 3) ≡ false)
election3-lockstep_example = election3-lockstep 3 (omega arith)
