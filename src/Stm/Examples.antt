-- ===== src/Stm/Examples.antt =====
-- The theorems on the transaction manager at concrete inputs.
use performant_transactional.Base.{
  ℕ, ◌*◌, ◌<◌, ◌^◌, ◌%◌, ◌≡◌, ◌↔◌, refl, Bool, true, false, none, some, [], ◌∷◌, arith, has,
}
use performant_transactional.Process.{Prog, ret, act, interleave}
use performant_transactional.Stm.State.{State, exec, null}
use performant_transactional.Stm.Lock.{
  version_of, is_locked_word, expected_word, locked_word, unlocked_word, version_word,
}
use performant_transactional.Stm.Lock.Words.{
  locked_word_lem, version_of-version_word, unlocked_word_lem,
}
use performant_transactional.Stm.Region.{MemoryRegion, tm_align, tm_create, tm_destroy}
use performant_transactional.Stm.Transaction.{Transaction, find}
use performant_transactional.Stm.Access.{tm_read, take_bytes}
use performant_transactional.Stm.Access.Offsets.{offsets, every, offsets-every}
use performant_transactional.Stm.Commit.{tm_end}
use performant_transactional.Stm.Client.{Call, begins, ends, Answer, serve}
use performant_transactional.Stm.Clock.{IsTimely}
use performant_transactional.Stm.Clock.Calls.{serve-IsTimely}
use performant_transactional.Stm.Races.{
  start, reader, writer, torn_order, shared_order, torn_snapshot, torn_stripe,
}
use performant_transactional.Stm.Alone.{alone}
use performant_transactional.Stm.Alone.Bytes.{log_all}
use performant_transactional.Stm.Alone.Locking.{calm, HoldsOnly, all_fresh}
use performant_transactional.Stm.Alone.Ending.{end_step, is_valid, tm_end-end_step}
use performant_transactional.Stm.Alone.Words.{HasKeys}
use performant_transactional.Stm.Alone.Reading.{read_steps, found, tm_read-read_steps}
use performant_transactional.Stm.Alone.Roundtrip.{tm_end-found}
use performant_transactional.Stm.Alone.Lifetime.{
  given, zeroed, constructing, region_of, tm_create_lem, tm_create_double_free, tm_destroy_lem,
}

-- Locks free at version 2, clock at 3, the byte at each address its remainder by 7.
abbrev sample : State
sample = record {
  gvc = 3;
  locks = λ l. 4;
  mem = λ a. a % 7;
  seg_list = 90 ∷ [];
  luck = [];
  blocks = [];
  freed = [];
}

-- It has read the word at 16 and written those at 8 and 24, of two bytes each.
abbrev editor : Transaction
editor = record {
  self = 77;
  rv = 2;
  read_set = 16 ∷ [];
  write_set = (8, 1 ∷ 2 ∷ []) ∷ (24, 3 ∷ 4 ∷ []) ∷ [];
  seg_list = 50 ∷ [];
  is_ro = false;
}

abbrev pair_region : MemoryRegion
pair_region = record { self = 1; size = 64; align = 2; locks = 5; start = 8 }

sample_free : HoldsOnly [] sample.locks
unfolding is_locked_word has
sample_free l = refl

sample_small : (l : ℕ) → version_of (sample.locks l) < 2 ^ 31
unfolding version_of
sample_small l = omega arith

editor_valid : is_valid editor (calm sample) ≡ true
unfolding is_valid all_fresh version_of
editor_valid = refl

editor_keys : HasKeys editor.write_set
unfolding find
editor_keys = (refl, (refl, tt))

tm_end-end_step_example : alone (tm_end editor) (calm sample) ≡ end_step editor (calm sample)
tm_end-end_step_example = tm_end-end_step editor sample sample_free sample_small

tm_read-read_steps_example :
    alone (tm_read pair_region editor 8 4 100 (λ _. 0)) sample
    ≡ read_steps
        (tm_align pair_region)
        (offsets 4 (tm_align pair_region))
        editor
        8
        100
        (λ _. 0)
        sample
tm_read-read_steps_example =
    tm_read-read_steps pair_region editor 8 4 100 (λ _. 0) sample sample_free

tm_end-found_example :
    ((alone (tm_end editor) (calm sample)).0 ≡ true)
    × (take_bytes (alone (tm_end editor) (calm sample)).1.mem 8 2 ≡ found 2 editor sample 8)
tm_end-found_example =
    tm_end-found 2 editor sample 8 4 sample_free sample_small refl editor_valid
      (((4, refl), refl), (((12, refl), refl), tt)) editor_keys refl

-- Threads that begin a transaction and end it at once.
abbrev begin_end : Prog Call Answer Bool
begin_end =
    act (begins false) λ txn. elim txn [ none ↦ ret false | some txn' ↦ act (ends txn') ret ]

sample-IsTimely : IsTimely 2 sample
unfolding version_of
sample-IsTimely = record { room = omega arith; fits = λ l. omega arith; behind = λ l. omega arith }

serve-IsTimely_example :
    IsTimely 0
      (interleave
        (λ _. exec)
        (0 ∷ 1 ∷ [])
        (record { shared = sample; threads = λ i. serve begin_end })).shared
serve-IsTimely_example = serve-IsTimely (λ i. begin_end) sample (0 ∷ 1 ∷ []) sample-IsTimely

offsets-every_example : offsets (3 * 8) 8 ≡ every 3 0 8
offsets-every_example = offsets-every 3 8 (omega arith)

locked_word_lem_example :
    (is_locked_word (locked_word (expected_word 6)) ≡ true)
    × (version_of (locked_word (expected_word 6)) ≡ version_of 6)
    × ((expected_word 6 ≡ 6) ↔ (is_locked_word 6 ≡ false))
locked_word_lem_example = locked_word_lem 6

version_of-version_word_example :
    (version_of (version_word 9) ≡ 9) × (is_locked_word (version_word 9) ≡ false)
version_of-version_word_example = version_of-version_word 9 (omega arith)

unlocked_word_lem_example :
    (is_locked_word (unlocked_word 7) ≡ false)
    × ((version_of (unlocked_word 7) ≡ version_of 7) ↔ (version_of 7 < 2 ^ 31))
unlocked_word_lem_example = unlocked_word_lem 7

tm_create_lem_example : alone (tm_create 16 8) (given (70 ∷ 80 ∷ 96 ∷ []) sample) ≡ (
  some (region_of 16 8 70 80 96),
  record (constructing sample []) { mem = zeroed sample.mem 96 16 },
)
tm_create_lem_example =
    tm_create_lem 16 8 70 80 sample [] (omega arith) (omega arith) 96 (omega arith)

tm_create_double_free_example :
    alone (tm_create 16 8) (given (70 ∷ 80 ∷ null ∷ []) sample)
    ≡ (none, record (constructing sample []) { freed = 70 ∷ 80 ∷ 80 ∷ [] })
tm_create_double_free_example =
    tm_create_double_free 16 8 70 80 sample [] (omega arith) (omega arith)

tm_destroy_lem_example :
    alone (tm_destroy pair_region) sample
    ≡ (tt, record sample { seg_list = []; freed = 1 ∷ 8 ∷ 5 ∷ log_all (90 ∷ []) [] })
tm_destroy_lem_example = tm_destroy_lem pair_region sample (omega arith) (omega arith) (omega arith)

torn_snapshot_example :
    (interleave (λ _. exec) torn_order (start (reader 9 8) (writer 8 9 5 6) (λ _. 0))).threads 0
    ≡ ret (some (0, 5))
torn_snapshot_example = torn_snapshot (λ _. 0) 5 6

torn_stripe_example :
    (interleave
        (λ _. exec)
        shared_order
        (start (reader 8 10008) (writer 8 10008 5 6) (λ _. 0))).threads
      0
    ≡ ret (some (5, 0))
torn_stripe_example = torn_stripe (λ _. 0) 5 6
