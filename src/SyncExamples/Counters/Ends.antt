-- ===== src/SyncExamples/Counters/Ends.antt =====
-- The end of `main` in counter2.c and counter4.c of sync-examples/, in any order of turns.
use performant_transactional.Base.{
  ℕ, ◌+◌, ◌*◌, ◌^◌, ◌<◌, ◌≤◌, true, List, ◌≡◌, refl, ap, ◌∙◌, ==_iff, arith, length,
}
use performant_transactional.Process.{ret, System}
use performant_transactional.Process.Turns.{count}
use performant_transactional.Process.Totals.{total, total-const}
use performant_transactional.Process.Blocking.{
  IsSound, interleave-IsSound, start-IsSound, Post-returned,
}
use performant_transactional.Process.Blocking.Turns.{interleave-IsFree}
use performant_transactional.SyncExamples.Counters.{
  Shared, Action, Answer, exec, runs_of, begin, after_turns, counted_up, count_locked, count_fetch,
  counter2, counter4,
}
use performant_transactional.SyncExamples.Counters.Locked.{guarded, count_locked-Meets}
use performant_transactional.SyncExamples.Counters.Fetched.{
  counting, count_fetch-Meets, count_fetch-IsFree,
}

pub runs_of-below : (nbthreads runs i : ℕ) → i < nbthreads → runs_of nbthreads runs i ≡ runs
unfolding runs_of
runs_of-below nbthreads runs i h = ground arith

runs_of-positive : (nbthreads runs i : ℕ) → 0 < runs_of nbthreads runs i → i < nbthreads
unfolding runs_of
runs_of-positive nbthreads runs i h = ground arith

total-runs_of : (nbthreads runs : ℕ) → total nbthreads (runs_of nbthreads runs) ≡ runs * nbthreads
total-runs_of nbthreads runs =
    total-const nbthreads runs (runs_of nbthreads runs) (runs_of-below nbthreads runs)

-- The threads have nothing left at the end.
unfoldable IsDone : ℕ → Unit {0} → Shared → Type 0
IsDone i r s = s.left i ≡ 0

module _ (nbthreads runs : ℕ) (room : runs * nbthreads < 2 ^ 31) where
  whole : ℕ
  whole = runs * nbthreads

  start_sum : 0 + total nbthreads (runs_of nbthreads runs) ≡ whole
  unfolding whole
  start_sum = ap (λ a. 0 + a) (total-runs_of nbthreads runs) ∙ omega arith

  locked-IsSound :
      (is : List ℕ)
      → IsSound exec (guarded nbthreads whole) IsDone 0 (after_turns count_locked nbthreads runs is)
  unfolding begin after_turns whole IsDone
  locked-IsSound is = interleave-IsSound exec (guarded nbthreads whole) IsDone is y (
      start-IsSound exec (guarded nbthreads whole) IsDone (length is) y (start_sum, room)
        (λ i.
          count_locked-Meets nbthreads whole i (runs_of nbthreads runs i) y.shared
            (runs_of-positive nbthreads runs i) refl))
    where
      y : System Action Answer Shared (Unit {0})
      y = begin count_locked nbthreads runs

  fetched-IsSound :
      (is : List ℕ)
      → IsSound exec (counting nbthreads whole) IsDone 0 (after_turns count_fetch nbthreads runs is)
  unfolding begin after_turns whole IsDone
  fetched-IsSound is = interleave-IsSound exec (counting nbthreads whole) IsDone is y (
      start-IsSound exec (counting nbthreads whole) IsDone (length is) y (start_sum, room)
        (λ i.
          count_fetch-Meets nbthreads whole i (runs_of nbthreads runs i) y.shared
            (runs_of-positive nbthreads runs i) refl))
    where
      y : System Action Answer Shared (Unit {0})
      y = begin count_fetch nbthreads runs

  all_counted :
      (s : Shared)
      → s.counter + total nbthreads s.left ≡ whole
      → ((i : ℕ) → i < nbthreads → s.left i ≡ 0)
      → counted_up nbthreads runs s.counter ≡ true
  unfolding counted_up whole
  all_counted s e h =
      let nothing = total-const nbthreads 0 s.left h in
      (==_iff s.counter (runs * nbthreads)).1 (omega arith)

-- The threads of counter2.c, `runs` rounds each, together below 2 ^ 31: in whatever order they take
-- their turns, when all have returned `main` finds that they counted up to the whole.
pub count_locked-counted_up :
    (nbthreads runs : ℕ) (is : List ℕ)
    → runs * nbthreads < 2 ^ 31
    → ((i : ℕ) → i < nbthreads → (after_turns count_locked nbthreads runs is).threads i ≡ ret tt)
    → counter2 nbthreads runs is ≡ true
unfolding IsDone whole
count_locked-counted_up nbthreads runs is room h =
    all_counted nbthreads runs room y.shared sound.inv.0 (λ i g.
      Post-returned exec (guarded nbthreads (runs * nbthreads)) IsDone 0 i tt y sound (h i g))
  where
    y : System Action Answer Shared (Unit {0})
    y = after_turns count_locked nbthreads runs is

    sound : IsSound exec (guarded nbthreads (runs * nbthreads)) IsDone 0 y
    sound = locked-IsSound nbthreads runs room is

-- The threads of counter4.c, `runs` rounds each, together below 2 ^ 31: in whatever order they take
-- their turns, when each has had a turn for each round `main` finds that they counted up to the
-- whole.
pub count_fetch-counted_up :
    (nbthreads runs : ℕ) (is : List ℕ)
    → runs * nbthreads < 2 ^ 31
    → ((i : ℕ) → i < nbthreads → runs ≤ count i is)
    → counter4 nbthreads runs is ≡ true
unfolding IsDone whole after_turns begin
count_fetch-counted_up nbthreads runs is room h =
    all_counted nbthreads runs room y.shared sound.inv.0 (λ i g.
      Post-returned exec (counting nbthreads (runs * nbthreads)) IsDone 0 i tt y sound
        (returned i g))
  where
    y : System Action Answer Shared (Unit {0})
    y = after_turns count_fetch nbthreads runs is

    sound : IsSound exec (counting nbthreads (runs * nbthreads)) IsDone 0 y
    sound = fetched-IsSound nbthreads runs room is

    returned : (i : ℕ) → i < nbthreads → y.threads i ≡ ret tt
    returned i g =
        (interleave-IsFree exec is runs i (begin count_fetch nbthreads runs)
          (rw (runs_of-below nbthreads runs i g) (count_fetch-IsFree i runs)) (h i g)).1
