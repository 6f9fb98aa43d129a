-- ===== src/Grading/Main.antt =====
-- `main` of grading/grading.cpp, over what the evaluation of each library gives for the timeouts that it
-- gets. What it prints is left out.
use performant_transactional.Base.{
  ℕ, ◌*◌, ◌^◌, ◌+◌, ◌%◌, ◌≤◌, ◌<◌, false, Option, none, some, List, [], ◌∷◌, map, ◌≡◌, ◌≢◌, refl,
  inl, inr, ◌==◌, Bool-cases, arith, if◌then◌else◌,
}
use performant_transactional.Grading.Chrono.{tick_mod, invalid_tick}
use performant_transactional.Grading.Measure.{Measured, measured, thrown}

abbrev pub slow_factor : ℕ
slow_factor = 16

-- maxtick_init, maxtick_perf, maxtick_chck
pub record Limits : Type 0 where
  pub init : ℕ
  pub perf : ℕ
  pub chck : ℕ

abbrev pub no_limits : Limits
no_limits = record { init = invalid_tick; perf = invalid_tick; chck = invalid_tick }

unfoldable pub slowed : ℕ → ℕ
slowed tick =
    let limit = slow_factor * tick % tick_mod in if limit == invalid_tick then limit + 1 else limit

unfoldable pub limits_of : ℕ → ℕ → ℕ → Limits
limits_of tick_init tick_perf tick_chck = record {
  init = slowed tick_init;
  perf = slowed tick_perf;
  chck = slowed tick_chck;
}

-- The first library sets the limits.
unfoldable pub next_limits : ℕ → ℕ → ℕ → Limits → Limits
next_limits tick_init tick_perf tick_chck l =
    if l.init == invalid_tick then limits_of tick_init tick_perf tick_chck else l

-- A library may not be loaded, or give no shared memory region: an exception before `measure`.
pub data Evaluation : Type 0 where
  not_loaded : Evaluation
  evaluated : Measured → Evaluation

-- `unassigned`: what times[posmedian] holds if it was not assigned.
abbrev pub assigned : ℕ → Option ℕ → ℕ
assigned unassigned none = unassigned
assigned unassigned (some t) = t

-- After the evaluation of a library: the exit status, or on to the next one with its limits.
abbrev pub judge : ℕ → Limits → (Limits → ℕ) → Evaluation → ℕ
judge unassigned l onward not_loaded = 1
judge unassigned l onward (evaluated thrown) = 2
judge unassigned l onward (evaluated (measured (some e) i p c)) = 1
judge unassigned l onward (evaluated (measured none i p c)) =
    onward (next_limits i (assigned unassigned p) c l)

-- The loop over the libraries: the exit status of the process.
unfoldable pub evaluate_all : ℕ → List (Limits → Evaluation) → Limits → ℕ
evaluate_all unassigned [] l = 0
evaluate_all unassigned (library ∷ libraries) l =
    judge unassigned l (λ l'. evaluate_all unassigned libraries l') (library l)

-- Without a library `main` tells how to use it.
unfoldable pub main : ℕ → List (Limits → Evaluation) → ℕ
main unassigned [] = 1
main unassigned (library ∷ libraries) = evaluate_all unassigned (library ∷ libraries) no_limits

-- The first library that fails decides.
unfoldable pub exit_of : List Evaluation → ℕ
exit_of [] = 0
exit_of (not_loaded ∷ es) = 1
exit_of (evaluated thrown ∷ es) = 2
exit_of (evaluated (measured (some e) i p c) ∷ es) = 1
exit_of (evaluated (measured none i p c) ∷ es) = exit_of es

slowed-valid : (tick : ℕ) → slowed tick ≢ invalid_tick
unfolding slowed
slowed-valid tick = elim (Bool-cases (slow_factor * tick % tick_mod == invalid_tick)) [
  | inl e ↦ rw e (λ h. ground arith)
  | inr e ↦ rw e (λ h. ground arith)
]

slowed_bound : (tick : ℕ) → slow_factor * tick < tick_mod → slow_factor * tick ≤ slowed tick
unfolding slowed
slowed_bound tick h = elim (Bool-cases (slow_factor * tick % tick_mod == invalid_tick)) [
  | inl e ↦ rw e (omega arith)
  | inr e ↦ rw e (omega arith)
]

-- Limits that are set stay.
next_limits-set : (i p c : ℕ) (l : Limits) → l.init ≢ invalid_tick → next_limits i p c l ≡ l
unfolding next_limits
next_limits-set i p c l d = rw (unequal l.init invalid_tick d) refl
  where
    unequal : (a b : ℕ) → a ≢ b → (a == b) ≡ false
    unequal a b d = ground arith

judge-set :
    (unassigned : ℕ) (libraries : List (Limits → Evaluation)) (l : Limits) (e : Evaluation)
    → l.init ≢ invalid_tick
    → evaluate_all unassigned libraries l ≡ exit_of (map (λ library. library l) libraries)
    → judge unassigned l (λ l'. evaluate_all unassigned libraries l') e
      ≡ exit_of (e ∷ map (λ library. library l) libraries)
unfolding exit_of
judge-set u ls l not_loaded d h = refl
judge-set u ls l (evaluated thrown) d h = refl
judge-set u ls l (evaluated (measured (some e) i p c)) d h = refl
judge-set u ls l (evaluated (measured none i p c)) d h =
    rw (next_limits-set i (assigned u p) c l d) h

evaluate_all-set :
    (unassigned : ℕ) (libraries : List (Limits → Evaluation)) (l : Limits)
    → l.init ≢ invalid_tick
    → evaluate_all unassigned libraries l ≡ exit_of (map (λ library. library l) libraries)
unfolding evaluate_all exit_of
evaluate_all-set u [] l d = refl
evaluate_all-set u (b ∷ bs) l d = judge-set u bs l (b l) d (evaluate_all-set u bs l d)

-- Where the first library has no error, and none of its three times is 2 ^ 60 ticks or more: each timeout is
-- from then on at least slow_factor times the first library's time and is not invalid_tick, so that
-- it does limit; and the exit status is the one that the first failing evaluation of the other
-- libraries, all with these timeouts, gives, and 0 when none fails.
pub main-exit_of :
    (unassigned : ℕ) (first : Limits → Evaluation) (libraries : List (Limits → Evaluation))
    (tick_init : ℕ) (tick_perf : Option ℕ) (tick_chck : ℕ)
    → first no_limits ≡ evaluated (measured none tick_init tick_perf tick_chck)
    → tick_init < 2 ^ 60
    → assigned unassigned tick_perf < 2 ^ 60
    → tick_chck < 2 ^ 60
    → let l = limits_of tick_init (assigned unassigned tick_perf) tick_chck in
      ((l.init ≢ invalid_tick) × (l.perf ≢ invalid_tick) × (l.chck ≢ invalid_tick))
      × ((slow_factor * tick_init ≤ l.init)
          × (slow_factor * assigned unassigned tick_perf ≤ l.perf)
          × (slow_factor * tick_chck ≤ l.chck))
      × (main unassigned (first ∷ libraries) ≡ exit_of (map (λ library. library l) libraries))
unfolding main evaluate_all limits_of next_limits
main-exit_of u first libraries i p c e hi hp hc =
    let l = limits_of i (assigned u p) c in
    (
      (slowed-valid i, slowed-valid (assigned u p), slowed-valid c),
      (
        slowed_bound i (omega arith),
        slowed_bound (assigned u p) (omega arith),
        slowed_bound c (omega arith),
      ),
      rw e (evaluate_all-set u libraries l (slowed-valid i)),
    )
