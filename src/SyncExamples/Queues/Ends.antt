-- ===== src/SyncExamples/Queues/Ends.antt =====
-- What the consumer of procon2.c and procon3.c of sync-examples/ receives, in any order of turns.
use performant_transactional.Base.{
  ℕ, zero, suc, ◌+◌, ◌<◌, ◌≤◌, ◌^◌, Bool, true, false, List, ◌≡◌, refl, ==_iff, arith, length,
}
use performant_transactional.Process.{ret, System}
use performant_transactional.Process.Blocking.{
  Meets, IsSound, interleave-IsSound, start-IsSound, Post-returned,
}
use performant_transactional.Process.Blocking.Triples.{Triple}
use performant_transactional.SyncExamples.Queues.{
  Shared, Action, Answer, Thread, exec, rounds, produce_locked, procon2, consume_locked,
  produce_atomic, consume_atomic, are_same, looks_correct, begin, after_turns,
}
use performant_transactional.SyncExamples.Queues.Contract.{Agree, Handed, handing}
use performant_transactional.SyncExamples.Queues.Producing.{IsReady}
use performant_transactional.SyncExamples.Queues.Producing.Rounds.{
  produce_locked-Triple, produce_atomic-Triple, producer-Triple,
}
use performant_transactional.SyncExamples.Queues.Consuming.{
  IsDue, consume_locked-Triple, consume_atomic-Triple, consumer-Triple,
}

are_same-Agree :
    (a b : ℕ → ℕ) (i n : ℕ) → ((j : ℕ) → i ≤ j → j < i + n → b j ≡ a j) → are_same a b i n ≡ true
unfolding are_same
are_same-Agree a b i zero h = refl
are_same-Agree a b i (suc n) h =
    rw (h i (omega arith) (omega arith), (==_iff (a i) (a i)).1 refl)
      (are_same-Agree a b (i + 1) n (λ j l g. h j (omega arith) (omega arith)))

looks_correct-Agree :
    (text r n : ℕ) (s : Shared)
    → ((k : ℕ) → r ≤ k → k < r + n → Agree text (s.consumed k) (s.produced k))
    → looks_correct text r n s ≡ true
unfolding looks_correct Agree
looks_correct-Agree text r zero s h = refl
looks_correct-Agree text r (suc n) s h =
    rw
      (are_same-Agree (s.produced r) (s.consumed r) 0 text
        (λ j l g. h r (omega arith) (omega arith) j (omega arith)))
      (looks_correct-Agree text (r + 1) n s (λ k l g. h k (omega arith) (omega arith)))

-- What a thread that has returned knows.
unfoldable pub IsFinished : ℕ → ℕ → Unit {0} → Shared → Type 0
IsFinished runs (suc zero) a s = IsDue (0 + runs) s
IsFinished runs zero a s = IsReady (0 + runs) s
IsFinished runs (suc (suc t)) a s = Unit

pub sound-looks_correct :
    (size text runs : ℕ) (spins : Bool) (rand : ℕ → ℕ → ℕ)
    (y : System Action Answer Shared (Unit {0}))
    → IsSound (exec size rand) (handing size text runs spins) (IsFinished runs) 0 y
    → y.threads 1 ≡ ret tt
    → looks_correct text 0 runs y.shared ≡ true
unfolding IsFinished IsDue
sound-looks_correct size text runs spins rand y sound e =
    let end =
      Post-returned (exec size rand) (handing size text runs spins) (IsFinished runs) 0 1 tt y sound
        e in
    looks_correct-Agree text 0 runs y.shared (λ k l g. sound.inv.handed k (omega (arith, end, g)))

module _ (size text runs : ℕ) (spins : Bool) (rand : ℕ → ℕ → ℕ) (produce consume : ℕ → Thread)
    (producing : Triple
      (exec size rand)
      (handing size text runs spins)
      0
      (IsReady 0)
      (rounds produce 0 runs)
      (IsReady (0 + runs)))
    (consuming : Triple
      (exec size rand)
      (handing size text runs spins)
      1
      (IsDue 0)
      (rounds consume 0 runs)
      (IsDue (0 + runs))) where
  abbrev pub start : System Action Answer Shared (Unit {0})
  start = begin size text runs rand produce consume

  thread-Meets :
      (i : ℕ)
      → Meets
          (exec size rand)
          (handing size text runs spins)
          i
          (start.threads i)
          (IsFinished runs i)
          start.shared
  unfolding begin IsFinished Triple IsReady IsDue
  thread-Meets zero = producing start.shared refl
  thread-Meets (suc zero) = consuming start.shared refl
  thread-Meets (suc (suc i)) = λ t p. tt

  pub start-Handed :
      (n : ℕ) → IsSound (exec size rand) (handing size text runs spins) (IsFinished runs) n start
  unfolding begin
  start-Handed n =
      start-IsSound (exec size rand) (handing size text runs spins) (IsFinished runs) n start
        (record {
          in_order = omega arith;
          bounded = omega arith;
          waiting = λ k h g. absurd (omega arith);
          handed = λ k h. absurd (omega arith);
        })
        thread-Meets

  pub handing-IsSound :
      (is : List ℕ)
      → IsSound
          (exec size rand)
          (handing size text runs spins)
          (IsFinished runs)
          0
          (after_turns size text runs rand produce consume is)
  unfolding after_turns
  handing-IsSound is =
      interleave-IsSound (exec size rand) (handing size text runs spins) (IsFinished runs) is start
        (start-Handed (length is))

  pub returned-looks_correct :
      (is : List ℕ)
      → (after_turns size text runs rand produce consume is).threads 1 ≡ ret tt
      → looks_correct text 0 runs (after_turns size text runs rand produce consume is).shared ≡ true
  returned-looks_correct is e =
      sound-looks_correct size text runs spins rand
        (after_turns size text runs rand produce consume is) (handing-IsSound is) e

pub atomic-IsSound :
    (size text runs : ℕ) (rand : ℕ → ℕ → ℕ)
    → runs + size < 2 ^ 31
    → (is : List ℕ)
    → IsSound
        (exec size rand)
        (handing size text runs true)
        (IsFinished runs)
        0
        (after_turns size text runs rand (produce_atomic text) (consume_atomic text) is)
atomic-IsSound size text runs rand fits is =
    handing-IsSound size text runs true rand (produce_atomic text) (consume_atomic text)
      (producer-Triple size text runs true rand fits (produce_atomic text)
        (produce_atomic-Triple size text runs true rand fits))
      (consumer-Triple size text runs true rand fits (consume_atomic text)
        (consume_atomic-Triple size text runs true rand fits))
      is

-- The queue of procon3.c, where the rounds and the size of the buffer together stay below 2 ^ 31: in
-- whatever order producer and consumer take their turns, at any time, the consumer has consumed no
-- more rounds than were produced, what was produced and not consumed waits in the buffer, and what
-- was consumed is what was produced.
pub consume_atomic-Handed :
    (size text runs : ℕ) (rand : ℕ → ℕ → ℕ) (is : List ℕ)
    → runs + size < 2 ^ 31
    → Handed size text runs
        (after_turns size text runs rand (produce_atomic text) (consume_atomic text) is).shared
consume_atomic-Handed size text runs rand is fits = (atomic-IsSound size text runs rand fits is).inv

-- When the consumer of procon2.c has returned, `main` finds that all data was consumed as it was
-- produced, where the rounds and the size of the buffer together stay below 2 ^ 31.
pub consume_locked-looks_correct :
    (size text runs : ℕ) (rand : ℕ → ℕ → ℕ) (is : List ℕ)
    → runs + size < 2 ^ 31
    → (after_turns size text runs rand (produce_locked text) (consume_locked text) is).threads 1
      ≡ ret tt
    → procon2 size text runs rand is ≡ true
consume_locked-looks_correct size text runs rand is fits e =
    returned-looks_correct size text runs false rand (produce_locked text) (consume_locked text)
      (producer-Triple size text runs false rand fits (produce_locked text)
        (produce_locked-Triple size text runs rand fits))
      (consumer-Triple size text runs false rand fits (consume_locked text)
        (λ r l. consume_locked-Triple size text runs rand fits r))
      is e
