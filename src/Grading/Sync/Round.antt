-- ===== src/Grading/Sync/Round.antt =====
-- One run of the workers: their calls of `worker_notify`, one after the other, and `master_wait`
-- (grading/grading.cpp).
use performant_transactional.Base.{
  ℕ, suc, ◌+◌, ◌%◌, ◌<◌, Bool, true, false, Option, none, some, List, [], ◌∷◌, ◌≡◌, ◌≢◌, refl, ap,
  ap₂, ◌∙◌, ◌==◌, ==_iff, length, arith, if◌then◌else◌,
}
use performant_transactional.Process.{run}
use performant_transactional.Grading.Chrono as Chrono
use performant_transactional.Grading.Chrono.{Timespec}
use performant_transactional.Grading.Sync.{
  running, aborting, done, failing, Shared, ready_mod, Task, exec, now, later, Verdict, success,
  failed, verdict, master_wait, note_error, leave, final_status, worker_notify,
}

unfoldable pub notify_all : ℕ → List (Option ℕ) → Shared → Shared
notify_all nbworkers [] s = s
notify_all nbworkers (e ∷ es) s = notify_all nbworkers es (run exec (worker_notify nbworkers e) s).1

-- Whether there was an error, and the last one.
unfoldable pub has_error : Bool → List (Option ℕ) → Bool
has_error f [] = f
has_error f (none ∷ es) = has_error f es
has_error f (some e ∷ es) = has_error true es

unfoldable pub last_error : Option ℕ → List (Option ℕ) → Option ℕ
last_error m [] = m
last_error m (none ∷ es) = last_error m es
last_error m (some e ∷ es) = last_error (some e) es

has_error-∷ :
    (e : Option ℕ) (f : Bool) (es : List (Option ℕ))
    → has_error (has_error f (e ∷ [])) es ≡ has_error f (e ∷ es)
unfolding has_error
has_error-∷ none f es = refl
has_error-∷ (some x) f es = refl

last_error-∷ :
    (e : Option ℕ) (m : Option ℕ) (es : List (Option ℕ))
    → last_error (last_error m (e ∷ [])) es ≡ last_error m (e ∷ es)
unfolding last_error
last_error-∷ none m es = refl
last_error-∷ (some x) m es = refl

run-if :
    {A : Type 0} (c : Bool) (p q : Task A) (s : Shared)
    → run exec (if c then p else q) s ≡ (if c then run exec p s else run exec q s)
run-if true p q s = refl
run-if false p q s = refl

differ : {a b : ℕ} → a ≢ b → (a == b) ≡ false
differ h = ground arith

wrap : (k : ℕ) → k + 1 < ready_mod → (k + 1) % ready_mod ≡ k + 1
wrap k h = omega arith

latest : (k : ℕ) {n : ℕ} → k + 1 ≡ n → n < ready_mod → ((k + 1) % ready_mod == n) ≡ true
latest k e h = (==_iff _ _).1 (omega arith)

earlier :
    (k i : ℕ) {n : ℕ} → k + suc (suc i) ≡ n → n < ready_mod → ((k + 1) % ready_mod == n) ≡ false
earlier k i e h = differ (λ d. absurd (omega arith))

module _ (nbworkers : ℕ) (r : Chrono.Chrono) (times : List (Option Timespec)) where
  -- `k` workers are done.
  unfoldable pub midway : ℕ → Bool → Option ℕ → Shared
  midway k f m = record {
    nbready = k;
    status = if f then aborting else running;
    errmsg = m;
    runtime = r;
    raised = false;
    times = times;
  }

  -- All workers are done.
  unfoldable pub ended : Bool → Option ℕ → Shared
  ended f m = record {
    nbready = 0;
    status = if f then failing else done;
    errmsg = m;
    runtime = Chrono.stop (now times) r;
    raised = true;
    times = later times;
  }

  leave-midway :
      (k : ℕ) (f : Bool) (m : Option ℕ)
      → run exec (leave nbworkers k) (midway ((k + 1) % ready_mod) f m) ≡ (
          if (k + 1) % ready_mod == nbworkers
          then (tt, ended f m)
          else (tt, midway ((k + 1) % ready_mod) f m))
  unfolding leave exec midway ended final_status
  leave-midway k true m = run-if ((k + 1) % ready_mod == nbworkers) _ _ _
  leave-midway k false m = run-if ((k + 1) % ready_mod == nbworkers) _ _ _

  worker_notify_lem :
      (e : Option ℕ) (k : ℕ) (f : Bool) (m : Option ℕ)
      → run exec (worker_notify nbworkers e) (midway k f m)
        ≡ run exec
            (leave nbworkers k)
            (midway ((k + 1) % ready_mod) (has_error f (e ∷ [])) (last_error m (e ∷ [])))
  unfolding worker_notify note_error exec midway has_error last_error
  worker_notify_lem none k f m = refl
  worker_notify_lem (some e) k f m = refl

  -- The calls of the remaining workers.
  pub notify_all-midway :
      (es : List (Option ℕ)) (k : ℕ) (f : Bool) (m : Option ℕ)
      → 0 < length es
      → k + length es ≡ nbworkers
      → nbworkers < ready_mod
      → notify_all nbworkers es (midway k f m) ≡ ended (has_error f es) (last_error m es)
  unfolding notify_all
  notify_all-midway [] k f m h n room = absurd (omega arith)
  notify_all-midway (e ∷ []) k f m h n room =
      ap (λ x. x.1)
        (worker_notify_lem e k f m
          ∙ leave-midway k (has_error f (e ∷ [])) (last_error m (e ∷ []))
          ∙ rw (latest k n room) refl)
  notify_all-midway (e ∷ e' ∷ es) k f m h n room =
      ap (λ x. notify_all nbworkers (e' ∷ es) x.1)
        (worker_notify_lem e k f m
          ∙ leave-midway k (has_error f (e ∷ [])) (last_error m (e ∷ []))
          ∙ rw (earlier k (length es) n room, wrap k (omega arith)) refl)
      ∙ notify_all-midway (e' ∷ es) (k + 1) (has_error f (e ∷ [])) (last_error m (e ∷ []))
          (omega arith) (omega arith) room
      ∙ ap₂ ended (has_error-∷ e f (e' ∷ es)) (last_error-∷ e m (e' ∷ es))

-- What the master reads after the workers ended.
unfoldable pub reported : Bool → Option ℕ → Chrono.Chrono → Verdict
reported true m c = failed m
reported false m c = success c

unfoldable pub lowered : Shared → Shared
lowered s = record s { raised = false }

master_wait-ended :
    (r : Chrono.Chrono) (times : List (Option Timespec)) (n : ℕ) (f : Bool) (m : Option ℕ)
    → run exec master_wait (ended n r times f m)
      ≡ (reported f m (Chrono.stop (now times) r), lowered (ended n r times f m))
unfolding master_wait verdict exec ended reported lowered
master_wait-ended r times n true m = refl
master_wait-ended r times n false m = refl

-- When fewer than 2 ^ 32 workers, at least one, were let go and then each calls `worker_notify` once,
-- the calls one after the other in any order of errors, `master_wait` returns at once: the last
-- error if there was one, and otherwise the clock, to whose total the time of the run was added. The
-- counter is then 0, the latch lowered, and the status tells whether there was an error.
pub master_wait-notify_all :
    (es : List (Option ℕ)) (r : Chrono.Chrono) (times : List (Option Timespec)) (m : Option ℕ)
    → 0 < length es
    → length es < ready_mod
    → run exec master_wait (notify_all (length es) es (midway (length es) r times 0 false m)) ≡ (
      reported (has_error false es) (last_error m es) (Chrono.stop (now times) r),
      lowered (ended (length es) r times (has_error false es) (last_error m es)),
    )
master_wait-notify_all es r times m h room =
    ap (run exec master_wait)
      (notify_all-midway (length es) r times es 0 false m h (omega arith) room)
    ∙ master_wait-ended r times (length es) (has_error false es) (last_error m es)
