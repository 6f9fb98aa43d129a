-- ===== src/SyncExamples/Queues.antt =====
-- procon1.c to procon3.c of sync-examples/: a producer hands data to a consumer through a buffer. The
-- copy of one character is one action, since a struct assignment is not atomic; so is `++` of a
-- counter that one thread alone changes. A waiting loop is an action that waits for its test: when
-- the test fails, the round of the loop leaves the memory as it was (in procon2.c it gives the lock
-- back). RUNS, DATA_TEXT_SIZE and BUFFER_SIZE are parameters, and so is what `rand` returns.
pub mod Contract
pub mod Loops
pub mod Producing
pub mod Consuming
pub mod Ends
pub mod Finish
use performant_transactional.Base.{
  ℕ, zero, suc, ◌+◌, ◌%◌, ◌^◌, Bool, true, false, Option, none, some, List, ◌==◌, ltb,
  if◌then◌else◌,
}
use performant_transactional.Process.{Prog, ret, act, ◌>>=◌, ◌>>◌, System, update}
use performant_transactional.Process.Blocking.{Blocking, interleave}

-- Arrays of `struct data`: the text's characters by the element and their place, as bytes.
pub record Shared : Type 0 where
  pub buffer : ℕ → ℕ → ℕ
  pub produced : ℕ → ℕ → ℕ
  pub consumed : ℕ → ℕ → ℕ
  pub produced_until : ℕ
  pub consumed_until : ℕ
  pub holder : Option ℕ

-- `draw r i`: a character from `rand`; `fill` and `fetch`: the copies into and out of the buffer
pub data Action : Type 0 where
  draw fill fetch : ℕ → ℕ → Action
  await_room await_data acquire_room acquire_data : ℕ → Action
  add_produced add_consumed release : Action

abbrev pub Answer : Action → Type 0
Answer a = Unit {0}

abbrev pub Thread : Type 0
Thread = Prog Action Answer (Unit {0})

abbrev pub int_mod : ℕ
int_mod = 2 ^ 32

abbrev pub put : (ℕ → ℕ → ℕ) → ℕ → ℕ → ℕ → ℕ → ℕ → ℕ
put f r i v = update f r (update (f r) i v)

-- Go on when the test holds.
abbrev pub wait : Bool → Shared → Option (Unit {0} × Shared)
wait true s = some (tt, s)
wait false s = none

-- Take the lock when it is free and the test holds.
abbrev pub take : ℕ → Bool → Option ℕ → Shared → Option (Unit {0} × Shared)
take i true none s = some (tt, record s { holder = some i })
take i true (some j) s = none
take i false o s = none

-- `size` is BUFFER_SIZE.
module _ (size : ℕ) (rand : ℕ → ℕ → ℕ) where
  abbrev pub has_room : ℕ → Shared → Bool
  has_room r s = ltb r ((s.consumed_until + size) % int_mod)

  abbrev pub has_data : ℕ → Shared → Bool
  has_data r s = ltb r s.produced_until

  unfoldable pub exec : ℕ → Blocking Action Answer Shared
  exec t (draw r i) s = some (tt, record s { produced = put s.produced r i (rand r i) })
  exec t (fill r i) s = some (tt, record s { buffer = put s.buffer (r % size) i (s.produced r i) })
  exec t (fetch r i) s =
      some (tt, record s { consumed = put s.consumed r i (s.buffer (r % size) i) })
  exec t (await_room r) s = wait (has_room r s) s
  exec t (await_data r) s = wait (has_data r s) s
  exec t (acquire_room r) s = take t (has_room r s) s.holder s
  exec t (acquire_data r) s = take t (has_data r s) s.holder s
  exec t add_produced s = some (tt, record s { produced_until = (s.produced_until + 1) % int_mod })
  exec t add_consumed s = some (tt, record s { consumed_until = (s.consumed_until + 1) % int_mod })
  exec t release s = some (tt, record s { holder = none })

-- The loop over the characters from `i` on: `n` of them.
unfoldable pub each : (ℕ → Action) → ℕ → ℕ → Thread
each op i zero = ret tt
each op i (suc n) = do act (op i) ret; each op (i + 1) n

-- The loop over the rounds from `r` on.
unfoldable pub rounds : (ℕ → Thread) → ℕ → ℕ → Thread
rounds body r zero = ret tt
rounds body r (suc n) = do body r; rounds body (r + 1) n

-- The bodies of the loops; `text` is DATA_TEXT_SIZE.
module _ (text : ℕ) where
  abbrev pub write_data : ℕ → Thread
  write_data r = do each (draw r) 0 text; each (fill r) 0 text

  abbrev pub read_data : ℕ → Thread
  read_data r = each (fetch r) 0 text

  -- procon1.c
  abbrev pub produce_blindly : ℕ → Thread
  produce_blindly r = write_data r

  abbrev pub consume_blindly : ℕ → Thread
  consume_blindly r = read_data r

  -- procon2.c
  abbrev pub produce_locked : ℕ → Thread
  produce_locked r = do
    act (acquire_room r) ret
    write_data r
    act add_produced ret
    act release ret

  abbrev pub consume_locked : ℕ → Thread
  consume_locked r = do act (acquire_data r) ret; read_data r; act add_consumed ret; act release ret

  -- procon3.c
  abbrev pub produce_atomic : ℕ → Thread
  produce_atomic r = do act (await_room r) ret; write_data r; act add_produced ret

  abbrev pub consume_atomic : ℕ → Thread
  consume_atomic r = do act (await_data r) ret; read_data r; act add_consumed ret

-- The loop of `are_same` from character `i` on.
unfoldable pub are_same : (ℕ → ℕ) → (ℕ → ℕ) → ℕ → ℕ → Bool
are_same a b i zero = true
are_same a b i (suc n) = let rest = are_same a b (i + 1) n in if a i == b i then rest else false

-- `main` after the threads are joined, from round `r` on: whether it prints "Looks correct to me!"
unfoldable pub looks_correct : ℕ → ℕ → ℕ → Shared → Bool
looks_correct text r zero s = true
looks_correct text r (suc n) s =
    let rest = looks_correct text (r + 1) n s in
    if are_same (s.produced r) (s.consumed r) 0 text then rest else false

-- `main` starts the producer, thread 0, and the consumer, thread 1.
module _ (size text runs : ℕ) (rand : ℕ → ℕ → ℕ) (produce consume : ℕ → Thread) where
  abbrev pub thread : ℕ → Thread
  thread zero = rounds produce 0 runs
  thread (suc zero) = rounds consume 0 runs
  thread (suc (suc t)) = ret tt

  unfoldable pub begin : System Action Answer Shared (Unit {0})
  begin = record {
    shared = record {
      buffer = λ r i. 0;
      produced = λ r i. 0;
      consumed = λ r i. 0;
      produced_until = 0;
      consumed_until = 0;
      holder = none;
    };
    threads = thread;
  }

  unfoldable pub after_turns : List ℕ → System Action Answer Shared (Unit {0})
  after_turns is = interleave (exec size rand) is begin

-- `main` of procon1.c to procon3.c, with the order of the turns
abbrev pub procon1 : ℕ → ℕ → ℕ → (ℕ → ℕ → ℕ) → List ℕ → Bool
procon1 size text runs rand is =
    looks_correct text 0 runs
      (after_turns size text runs rand (produce_blindly text) (consume_blindly text) is).shared

abbrev pub procon2 : ℕ → ℕ → ℕ → (ℕ → ℕ → ℕ) → List ℕ → Bool
procon2 size text runs rand is =
    looks_correct text 0 runs
      (after_turns size text runs rand (produce_locked text) (consume_locked text) is).shared

abbrev pub procon3 : ℕ → ℕ → ℕ → (ℕ → ℕ → ℕ) → List ℕ → Bool
procon3 size text runs rand is =
    looks_correct text 0 runs
      (after_turns size text runs rand (produce_atomic text) (consume_atomic text) is).shared
