-- ===== src/SyncExamples/Queues/Producing/Rounds.antt =====
-- The rounds of the producer of procon2.c and procon3.c of sync-examples/.
use performant_transactional.Base.{ℕ, ◌+◌, ◌<◌, ◌^◌, Bool, false, ◌≡◌, arith}
use performant_transactional.Process.{ret, act, ◌>>◌}
use performant_transactional.Process.Blocking.Triples.{Triple, then-Triple}
use performant_transactional.SyncExamples.Queues.{
  Shared, draw, fill, await_room, acquire_room, add_produced, exec, each, rounds, Thread,
  write_data, produce_locked, produce_atomic,
}
use performant_transactional.SyncExamples.Queues.Contract.{Agree, handing}
use performant_transactional.SyncExamples.Queues.Loops.{each-Triple, rounds-Triple}
use performant_transactional.SyncExamples.Queues.Producing.{
  IsReady, HasRoom, IsFilled, Part, IsReady-IsKept, HasRoom-IsKept, IsFilled-IsKept,
  await_room-Triple, acquire_room-Triple, draw-Triple, fill-Triple, add_produced-Triple,
  release-Triple,
}

module _ (size text runs : ℕ) (spins : Bool) (rand : ℕ → ℕ → ℕ) (fits : runs + size < 2 ^ 31) where
  abbrev pub Does : (Shared → Type 0) → Thread → (Shared → Type 0) → Type 0
  Does K p L = Part size text runs spins rand fits K p L

  -- One part and then another.
  pub next_part :
      (K L M : Shared → Type 0) (p q : Thread) → Does K p L → Does L q M → Does K (p >> q) M
  next_part K L M p q a b =
      then-Triple (exec size rand) (handing size text runs spins) 0 K L M p q a b

  pub write_data-Triple : (r : ℕ) → Does (HasRoom size r) (write_data text r) (IsFilled size r text)
  unfolding IsFilled Triple Agree
  write_data-Triple r =
      next_part (HasRoom size r) (HasRoom size r) (IsFilled size r text) (each (draw r) 0 text) _
        (each-Triple size text runs spins rand 0 (λ _. HasRoom size r)
          (λ _. HasRoom-IsKept size text runs spins rand fits r) (draw r)
          (draw-Triple size text runs spins rand fits r) text 0)
        (λ s k.
          (rw (all text) at (
              each-Triple size text runs spins rand 0 (IsFilled size r)
                (IsFilled-IsKept size text runs spins rand fits r) (fill r)
                (fill-Triple size text runs spins rand fits r) text 0))
            s (k, λ j h. absurd (omega arith)))
    where
      all : (n : ℕ) → 0 + n ≡ n
      all n = omega arith

  -- A round of procon3.c
  pub produce_atomic-Triple :
      (r : ℕ) → r < runs → Does (IsReady r) (produce_atomic text r) (IsReady (r + 1))
  produce_atomic-Triple r l =
      next_part (IsReady r) (HasRoom size r) (IsReady (r + 1)) (act (await_room r) ret) _
        (await_room-Triple size text runs spins rand fits r)
        (next_part (HasRoom size r) (IsFilled size r text) (IsReady (r + 1)) (write_data text r) _
          (write_data-Triple r) (add_produced-Triple size text runs spins rand fits r l))

  -- All rounds, where one is as it should be.
  pub producer-Triple :
      (body : ℕ → Thread)
      → ((r : ℕ) → r < runs → Does (IsReady r) (body r) (IsReady (r + 1)))
      → Does (IsReady 0) (rounds body 0 runs) (IsReady (0 + runs))
  producer-Triple body one =
      rounds-Triple size text runs spins rand 0 IsReady
        (IsReady-IsKept size text runs spins rand fits) body one runs 0 (omega arith)

module _ (size text runs : ℕ) (rand : ℕ → ℕ → ℕ) (fits : runs + size < 2 ^ 31) where
  -- A round of procon2.c
  pub produce_locked-Triple :
      (r : ℕ)
      → r < runs
      → Does size text runs false rand fits (IsReady r) (produce_locked text r) (IsReady (r + 1))
  produce_locked-Triple r l =
      next_part size text runs false rand fits (IsReady r) (HasRoom size r) (IsReady (r + 1))
        (act (acquire_room r) ret) _ (acquire_room-Triple size text runs rand fits r)
        (next_part size text runs false rand fits (HasRoom size r) (IsFilled size r text)
          (IsReady (r + 1)) (write_data text r) _
          (write_data-Triple size text runs false rand fits r)
          (next_part size text runs false rand fits (IsFilled size r text) (IsReady (r + 1))
            (IsReady (r + 1)) (act add_produced ret) _
            (add_produced-Triple size text runs false rand fits r l)
            (release-Triple size text runs false rand fits (r + 1))))
