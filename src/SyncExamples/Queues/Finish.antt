-- ===== src/SyncExamples/Queues/Finish.antt =====
-- Both threads of procon3.c of sync-examples/ come to their end.
use performant_transactional.Base.{
  ℕ, zero, suc, ◌+◌, ◌*◌, ◌<◌, ◌≤◌, ◌^◌, true, List, ◌≡◌, ◌⊎◌, inl, inr, arith, length,
}
use performant_transactional.Process.{ret, act, System}
use performant_transactional.Process.Blocking.{
  IsSound, interleave, interleave-IsSound, Post-returned,
}
use performant_transactional.Process.Blocking.Progress.{
  alternate, IsWithin, bind-IsWithin, HasReturned, IsWaiting, waiting-Stuck, interleave-IsWithin,
  alternate-returned,
}
use performant_transactional.SyncExamples.Queues.{
  Shared, Action, Answer, Thread, draw, fill, fetch, await_room, await_data, add_produced,
  add_consumed, write_data, exec, each, rounds, produce_atomic, consume_atomic, begin, after_turns,
  looks_correct,
}
use performant_transactional.SyncExamples.Queues.Contract.{handing}
use performant_transactional.SyncExamples.Queues.Producing.{IsReady}
use performant_transactional.SyncExamples.Queues.Consuming.{IsDue}
use performant_transactional.SyncExamples.Queues.Ends.{
  IsFinished, atomic-IsSound, sound-looks_correct,
}

each-IsWithin : (op : ℕ → Action) (i n : ℕ) → IsWithin n (each op i n)
unfolding each IsWithin
each-IsWithin op i zero = tt
each-IsWithin op i (suc n) = λ _. each-IsWithin op (i + 1) n

rounds-IsWithin :
    (c : ℕ) (body : ℕ → Thread)
    → ((r : ℕ) → IsWithin c (body r))
    → (r n : ℕ) → IsWithin (n * c) (rounds body r n)
unfolding rounds IsWithin
rounds-IsWithin c body h r zero = tt
rounds-IsWithin c body h r (suc n) = rw (more n) (
    bind-IsWithin c (n * c) (body r) (λ _. rounds body (r + 1) n) (h r)
      (λ _. rounds-IsWithin c body h (r + 1) n))
  where
    more : (n : ℕ) → suc n * c ≡ c + n * c
    more n = ground arith

one :
    (k : Thread) (a : Action) (n : ℕ)
    → IsWithin n k
    → IsWithin {Res = Answer} (1 + n) (act a (λ _. k))
unfolding IsWithin
one k a n h = rw (up n) (λ _. h)
  where
    up : (n : ℕ) → 1 + n ≡ suc n
    up n = omega arith

last_one : (a : Action) → IsWithin {Res = Answer} 1 (act a ret)
unfolding IsWithin
last_one a = λ r. tt

produce_atomic-IsWithin : (text r : ℕ) → IsWithin (1 + (text + text + 1)) (produce_atomic text r)
produce_atomic-IsWithin text r = one _ (await_room r) (text + text + 1) (
    bind-IsWithin (text + text) 1 (write_data text r) (λ _. act add_produced ret)
      (bind-IsWithin text text (each (draw r) 0 text) (λ _. each (fill r) 0 text)
        (each-IsWithin (draw r) 0 text) (λ _. each-IsWithin (fill r) 0 text))
      (λ _. last_one add_produced))

consume_atomic-IsWithin : (text r : ℕ) → IsWithin (1 + (text + 1)) (consume_atomic text r)
consume_atomic-IsWithin text r = one _ (await_data r) (text + 1) (
    bind-IsWithin text 1 (each (fetch r) 0 text) (λ _. act add_consumed ret)
      (each-IsWithin (fetch r) 0 text) (λ _. last_one add_consumed))

-- How many actions a thread has.
abbrev pub actions : ℕ → ℕ → ℕ
actions text runs = runs * (1 + (text + text + 1)) + runs * (1 + (text + 1))

module _ (size text runs : ℕ) (rand : ℕ → ℕ → ℕ) (room : 0 < size)
    (fits : runs + size < 2 ^ 31) where
  abbrev Sys : Type 0
  Sys = System Action Answer Shared (Unit {0})

  -- A full buffer is not empty, and a thread that has returned leaves the other nothing to wait for.
  never_both :
      (n : ℕ) (y : Sys)
      → IsSound (exec size rand) (handing size text runs true) (IsFinished runs) (suc n) y
      → HasReturned (exec size rand) 0 y ⊎ IsWaiting (exec size rand) 0 y
      → HasReturned (exec size rand) 1 y ⊎ IsWaiting (exec size rand) 1 y
      → HasReturned (exec size rand) 0 y × HasReturned (exec size rand) 1 y
  unfolding IsFinished IsReady IsDue
  never_both n y sound (inl q) (inl q') = (q, q')
  never_both n y sound (inl (r, e)) (inr w) =
      let done =
        Post-returned (exec size rand) (handing size text runs true) (IsFinished runs) (suc n) 0 r y
          sound e in
      let (empty, more) =
        waiting-Stuck (exec size rand) (handing size text runs true) (IsFinished runs) n 1 y sound
          w in
      absurd (omega (arith, done, empty, more))
  never_both n y sound (inr w) (inl (r, e)) =
      let done =
        Post-returned (exec size rand) (handing size text runs true) (IsFinished runs) (suc n) 1 r y
          sound e in
      let full =
        waiting-Stuck (exec size rand) (handing size text runs true) (IsFinished runs) n 0 y sound
          w in
      let bound = sound.inv.bounded in absurd (omega (arith, done, full, bound))
  never_both n y sound (inr w) (inr w') =
      let full =
        waiting-Stuck (exec size rand) (handing size text runs true) (IsFinished runs) n 0 y sound
          w in
      let (empty, more) =
        waiting-Stuck (exec size rand) (handing size text runs true) (IsFinished runs) n 1 y sound
          w' in
      absurd (omega (arith, full, empty))

  y0 : List ℕ → Sys
  y0 is = after_turns size text runs rand (produce_atomic text) (consume_atomic text) is

  after-IsWithin :
      (is : List ℕ)
      → IsWithin (runs * (1 + (text + text + 1))) ((y0 is).threads 0)
        × IsWithin (runs * (1 + (text + 1))) ((y0 is).threads 1)
  unfolding y0 after_turns begin
  after-IsWithin is = (
    interleave-IsWithin (exec size rand) is 0 (runs * (1 + (text + text + 1)))
        (begin size text runs rand (produce_atomic text) (consume_atomic text))
        (rounds-IsWithin (1 + (text + text + 1)) (produce_atomic text)
          (produce_atomic-IsWithin text) 0 runs),
    interleave-IsWithin (exec size rand) is 1 (runs * (1 + (text + 1)))
        (begin size text runs rand (produce_atomic text) (consume_atomic text))
        (rounds-IsWithin (1 + (text + 1)) (consume_atomic text) (consume_atomic-IsWithin text) 0
          runs),
  )

  -- The contract holds for as many turns as one likes.
  after-IsSound :
      (n : ℕ) (is : List ℕ)
      → IsSound (exec size rand) (handing size text runs true) (IsFinished runs) n (y0 is)
  unfolding y0
  after-IsSound n is =
      let sound = atomic-IsSound size text runs rand fits is in
      record { inv = sound.inv; last = sound.last; relied = sound.relied; valid = sound.valid }

-- The queue of procon3.c, with a buffer of at least one element, where the rounds and the size of the
-- buffer together stay below 2 ^ 31: whatever turns the threads have taken, when from then on each has
-- as many turns, one after the other, as both threads have actions, both return, and `main` finds that
-- all data was consumed as it was produced.
pub procon-looks_correct :
    (size text runs : ℕ) (rand : ℕ → ℕ → ℕ) (is : List ℕ) (m : ℕ)
    → 0 < size
    → runs + size < 2 ^ 31
    → actions text runs ≤ m
    → let y =
        interleave
          (exec size rand)
          (alternate m)
          (after_turns size text runs rand (produce_atomic text) (consume_atomic text) is) in
      (y.threads 0 ≡ ret tt) × (y.threads 1 ≡ ret tt) × (looks_correct text 0 runs y.shared ≡ true)
unfolding y0
procon-looks_correct size text runs rand is m room fits l =
    let left = after-IsWithin size text runs rand room fits is in
    let over =
      alternate-returned (exec size rand) (handing size text runs true) (IsFinished runs)
        (never_both size text runs rand room fits) m _ _ (y0 size text runs rand room fits is)
        (after-IsSound size text runs rand room fits (length (alternate m)) is) left.0 left.1 l in
    (
      over.0.1,
      over.1.1,
      sound-looks_correct size text runs true rand _
          (interleave-IsSound (exec size rand) (handing size text runs true) (IsFinished runs)
            (alternate m) (y0 size text runs rand room fits is)
            (after-IsSound size text runs rand room fits (length (alternate m)) is))
          over.1.1,
    )
