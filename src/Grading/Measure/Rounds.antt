-- ===== src/Grading/Measure/Rounds.antt =====
-- One run of `measure` (grading/grading.cpp), where the workers of each run call `worker_notify` one
-- after the other while the master waits.
use performant_transactional.Base.{
  ℕ, zero, suc, ◌+◌, ◌<◌, ◌∷◌, [], ◌≡◌, refl, ap, ◌∙◌, Bool, true, false, Option, none, some, List,
  if◌then◌else◌, length, arith,
}
use performant_transactional.Process.{ret, ◌>>=◌}
use performant_transactional.Grading.Chrono as Chrono
use performant_transactional.Grading.Chrono.{Timespec}
use performant_transactional.Grading.Sync.{
  Status, done, running, quitting, Shared, ready_mod, Task, exec, now, later, verdict, ask,
  load_status, overrun, master_notify, master_wait, master_join,
}
use performant_transactional.Grading.Sync.Round.{
  notify_all, midway, ended, reported, lowered, has_error, last_error, notify_all-midway,
}
use performant_transactional.Grading.Measure.{Measured, join, follow, one_run, is_wait, serve}

-- Between two runs
unfoldable pub idle : Status → Chrono.Chrono → List (Option Timespec) → Shared
idle st r times = record {
  nbready = 0;
  status = st;
  errmsg = none;
  runtime = r;
  raised = false;
  times = times;
}

-- The clock after a run, and after `n` runs; the time that is left; the totals that it told.
unfoldable pub clock_of : Chrono.Chrono → List (Option Timespec) → Chrono.Chrono
clock_of r times = Chrono.stop (now (later times)) (Chrono.start (now times) r)

unfoldable pub clock_after : ℕ → Chrono.Chrono → List (Option Timespec) → Chrono.Chrono
clock_after zero r times = r
clock_after (suc n) r times = clock_after n (clock_of r times) (later (later times))

unfoldable pub times_after : ℕ → List (Option Timespec) → List (Option Timespec)
times_after zero times = times
times_after (suc n) times = times_after n (later (later times))

unfoldable pub totals : ℕ → Chrono.Chrono → List (Option Timespec) → List ℕ
totals zero r times = []
totals (suc n) r times =
    (clock_of r times).total ∷ totals n (clock_of r times) (later (later times))

has_error-true : (es : List (Option ℕ)) → has_error true es ≡ true
unfolding has_error
has_error-true [] = refl
has_error-true (none ∷ es) = has_error-true es
has_error-true (some e ∷ es) = has_error-true es

last_error-none :
    (es : List (Option ℕ)) (m : Option ℕ) → has_error false es ≡ false → last_error m es ≡ m
unfolding has_error last_error
last_error-none [] m h = refl
last_error-none (none ∷ es) m h = last_error-none es m h
last_error-none (some e ∷ es) m h = absurd (clash (has_error true es) (has_error-true es) h)
  where
    clash : (b : Bool) → b ≡ true → b ≡ false → ⊥
    clash b h h' = absurd cc

-- Messages of the workers by the run. The last worker to enter a run lets all go.
module _ (errors : ℕ → List (Option ℕ)) where
  unfoldable pub runs : ℕ → Shared → Shared
  runs k s = notify_all (length (errors k)) (errors k) (record s { nbready = 0; status = running })

  unfoldable pub ArePresent : Type 0
  ArePresent = (k : ℕ) → (0 < length (errors k)) × (length (errors k) < ready_mod)

  waited :
      (k : ℕ) (onward : ℕ → Task Measured) (stop : Option ℕ → Task Measured) (s u : Shared)
      → runs k s ≡ u
      → serve runs k (master_wait >>= follow onward stop) s
        ≡ serve runs
            (k + 1)
            ((if u.raised then (do st ← ask load_status; verdict st) else ret overrun)
              >>= follow onward stop)
            (record u { raised = false })
  unfolding serve master_wait exec is_wait
  waited k onward stop s u e =
      ap
        (λ v.
          serve runs (k + 1)
            ((if v.raised then (do st ← ask load_status; verdict st) else ret overrun)
              >>= follow onward stop)
            (record v { raised = false }))
        e

  serve-ended :
      (k n : ℕ) (onward : ℕ → Task Measured) (stop : Option ℕ → Task Measured) (s : Shared)
      (r : Chrono.Chrono) (times : List (Option Timespec)) (f : Bool) (m : Option ℕ)
      → runs k s ≡ ended n r times f m
      → serve runs k (master_wait >>= follow onward stop) s
        ≡ serve runs
            (k + 1)
            (follow onward stop (reported f m (Chrono.stop (now times) r)))
            (lowered (ended n r times f m))
  unfolding serve master_wait verdict exec is_wait ended reported lowered
  serve-ended k n onward stop s r times true m e = waited k onward stop s _ e
  serve-ended k n onward stop s r times false m e = waited k onward stop s _ e

  one_run_lem :
      (k : ℕ) (onward : ℕ → Task Measured) (stop : Option ℕ → Task Measured) (st : Status)
      (r : Chrono.Chrono) (times : List (Option Timespec))
      → ArePresent
      → let es = errors k in
        serve runs k (one_run onward stop) (idle st r times)
        ≡ serve runs
            (k + 1)
            (follow onward stop
              (reported (has_error false es) (last_error none es) (clock_of r times)))
            (lowered (
              ended
                (length es)
                (Chrono.start (now times) r)
                (later times)
                (has_error false es)
                (last_error none es)))
  unfolding serve one_run master_notify exec is_wait idle runs clock_of ArePresent midway
  one_run_lem k onward stop st r times present =
      serve-ended k (length (errors k)) onward stop _ (Chrono.start (now times) r) (later times)
        (has_error false (errors k)) (last_error none (errors k))
        (notify_all-midway (length (errors k)) (Chrono.start (now times) r) (later times) (errors k)
          0 false none (present k).0 (omega arith) (present k).1)

  pub one_run-good :
      (k : ℕ) (onward : ℕ → Task Measured) (stop : Option ℕ → Task Measured) (st : Status)
      (r : Chrono.Chrono) (times : List (Option Timespec))
      → ArePresent
      → has_error false (errors k) ≡ false
      → serve runs k (one_run onward stop) (idle st r times)
        ≡ serve runs
            (k + 1)
            (onward (clock_of r times).total)
            (idle done (clock_of r times) (later (later times)))
  unfolding ended lowered reported idle clock_of
  one_run-good k onward stop st r times present h =
      one_run_lem k onward stop st r times present ∙ rw (h, last_error-none (errors k) none h) refl

  pub one_run-bad :
      (k : ℕ) (onward : ℕ → Task Measured) (stop : Option ℕ → Task Measured) (st : Status)
      (r : Chrono.Chrono) (times : List (Option Timespec))
      → ArePresent
      → has_error false (errors k) ≡ true
      → serve runs k (one_run onward stop) (idle st r times)
        ≡ serve runs (k + 1) (stop (last_error none (errors k))) (
            lowered (
              ended
                (length (errors k))
                (Chrono.start (now times) r)
                (later times)
                true
                (last_error none (errors k))))
  unfolding reported
  one_run-bad k onward stop st r times present h =
      one_run_lem k onward stop st r times present ∙ rw h refl

  pub join_lem :
      (k : ℕ) (m : Measured) (s : Shared)
      → serve runs k (join m) s ≡ (m, record s { status = quitting })
  unfolding serve join master_join exec is_wait
  join_lem k m s = refl
