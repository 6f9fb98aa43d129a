-- ===== src/SyncExamples/Elections/Twice.antt =====
-- election1.c and election3.c of sync-examples/: two threads that both read before either writes.
use performant_transactional.Base.{
  ℕ, zero, suc, ◌+◌, ◌%◌, ◌<◌, ◌≤◌, List, [], ◌∷◌, ◌≡◌, ◌≢◌, refl, ap, ◌∙◌, false, arith,
}
use performant_transactional.Process.{ret, act, System, update, update_own, update_else}
use performant_transactional.Process.Blocking.{turn, interleave}
use performant_transactional.Process.Blocking.Turns.{turn-at}
use performant_transactional.SyncExamples.Elections.{
  Shared, int_mod, Action, Answer, Thread, exec, round_atomic, elect, begin, after_turns, rounds_of,
  looks_correct, election3,
}

-- Both threads read the leader, both become it, and both are counted.
unfoldable pub lockstep : ℕ → List ℕ
lockstep zero = []
lockstep (suc n) = 0 ∷ 1 ∷ 0 ∷ 1 ∷ 0 ∷ 1 ∷ lockstep n

abbrev Sys : Type 0
Sys = System Action Answer Shared (Unit {0})

-- A round after both have read.
abbrev won : ℕ → ℕ → ℕ → Thread
won tid r k =
    act (Action.store_leader r tid)
      (λ _. act (Action.add_leader r) (λ _. elect round_atomic tid (r + 1) k))

load-at :
    (i tid r k : ℕ) (y : Sys)
    → y.threads i ≡ elect round_atomic tid r (suc k)
    → y.shared.leader r ≡ 0
    → turn exec i y ≡ record { shared = y.shared; threads = update y.threads i (won tid r k) }
unfolding turn elect round_atomic exec
load-at i tid r k y e z = rw e (rw z refl)

-- Two atomic increments of one element.
abbrev bump : (ℕ → ℕ) → ℕ → ℕ → ℕ
bump f r = update f r ((f r + 1) % int_mod)

bumped_else : (f : ℕ → ℕ) (r n : ℕ) → r ≢ n → bump (bump f r) r n ≡ f n
bumped_else f r n d =
    update_else (bump f r) r n ((bump f r r + 1) % int_mod) d
    ∙ update_else f r n ((f r + 1) % int_mod) d

bumped_twice : (f : ℕ → ℕ) (r : ℕ) → f r ≡ 0 → bump (bump f r) r r ≡ 2
bumped_twice f r e =
    update_own (bump f r) r ((bump f r r + 1) % int_mod)
    ∙ ap (λ v. (v + 1) % int_mod) (update_own f r ((f r + 1) % int_mod))
    ∙ two (f r) e
  where
    two : (v : ℕ) → v ≡ 0 → ((v + 1) % int_mod + 1) % int_mod ≡ 2
    two v e = omega arith

one_round :
    (r k : ℕ) (y : Sys)
    → y.threads 0 ≡ elect round_atomic 1 r (suc k)
    → y.threads 1 ≡ elect round_atomic 2 r (suc k)
    → y.shared.leader r ≡ 0
    → (z : Sys) × (turn exec 1
          (turn exec 0 (turn exec 1 (turn exec 0 (turn exec 1 (turn exec 0 y)))))
        ≡ z)
      × (z.shared.leader ≡ update (update y.shared.leader r 1) r 2)
      × (z.threads 0 ≡ elect round_atomic 1 (r + 1) k)
      × (z.threads 1 ≡ elect round_atomic 2 (r + 1) k)
      × ((n : ℕ) → r ≢ n → z.shared.nb_leaders n ≡ y.shared.nb_leaders n)
      × (y.shared.nb_leaders r ≡ 0 → z.shared.nb_leaders r ≡ 2)
unfolding exec
one_round r k y p q h = (
  _,
  ap (λ a. turn exec 1 (turn exec 0 (turn exec 1 (turn exec 0 (turn exec 1 a)))))
        (load-at 0 1 r k y p h)
      ∙ ap (λ a. turn exec 1 (turn exec 0 (turn exec 1 (turn exec 0 a)))) (load-at 1 2 r k _ q h)
      ∙ ap (λ a. turn exec 1 (turn exec 0 (turn exec 1 a))) (turn-at exec 0 _ _ refl)
      ∙ ap (λ a. turn exec 1 (turn exec 0 a)) (turn-at exec 1 _ _ refl)
      ∙ ap (λ a. turn exec 1 a) (turn-at exec 0 _ _ refl)
      ∙ turn-at exec 1 _ _ refl,
  refl,
  refl,
  refl,
  λ n d. bumped_else y.shared.nb_leaders r n d,
  λ e. bumped_twice y.shared.nb_leaders r e,
)

lockstep_lem :
    (k r : ℕ) (y : Sys)
    → y.threads 0 ≡ elect round_atomic 1 r k
    → y.threads 1 ≡ elect round_atomic 2 r k
    → ((n : ℕ) → r ≤ n → y.shared.leader n ≡ 0)
    → ((interleave exec (lockstep k) y).threads 0 ≡ ret tt)
      × ((interleave exec (lockstep k) y).threads 1 ≡ ret tt)
      × ((n : ℕ)
          → n < r
          → (interleave exec (lockstep k) y).shared.nb_leaders n ≡ y.shared.nb_leaders n)
unfolding interleave lockstep elect
lockstep_lem zero r y p q h = (p, q, λ n l. refl)
lockstep_lem (suc k) r y p q h =
    let (z, e, lead, p', q', kept, two) = one_round r k y p q (h r (omega arith)) in
    let found =
      lockstep_lem k (r + 1) z p' q'
        (λ n l. ap (λ f. f n) lead ∙ twice_else n l ∙ h n (omega arith)) in
    let same = ap (interleave exec (lockstep k)) e in
    rw same (found.0, found.1, λ n l. found.2 n (omega arith) ∙ kept n (λ d. absurd (omega arith)))
  where
    twice_else : (n : ℕ) → r + 1 ≤ n → update (update y.shared.leader r 1) r 2 n ≡ y.shared.leader n
    twice_else n l =
        update_else (update y.shared.leader r 1) r n 2 (λ d. absurd (omega arith))
        ∙ update_else y.shared.leader r n 1 (λ d. absurd (omega arith))

abbrev nobody : ℕ → ℕ
nobody r = 0

others : (n : ℕ) → 1 ≤ n → update (update nobody 0 1) 0 2 n ≡ nobody n
others n l =
    update_else (update nobody 0 1) 0 n 2 (λ d. absurd (omega arith))
    ∙ update_else nobody 0 n 1 (λ d. absurd (omega arith))

two_found : (n : ℕ) (f : ℕ → ℕ) → f 0 ≡ 2 → looks_correct (suc n) 0 f ≡ false
unfolding looks_correct
two_found n f e = rw e refl

-- Two threads of election3.c that take their turns in lockstep, with at least one round: both return, and
-- main does not find one leader for each round.
pub election3-lockstep :
    (runs : ℕ)
    → 0 < runs
    → ((after_turns round_atomic 2 runs (lockstep runs)).threads 0 ≡ ret tt)
      × ((after_turns round_atomic 2 runs (lockstep runs)).threads 1 ≡ ret tt)
      × (election3 2 runs (lockstep runs) ≡ false)
unfolding after_turns begin rounds_of interleave lockstep
election3-lockstep zero h = absurd (omega arith)
election3-lockstep (suc k) h =
    let y : Sys = begin round_atomic 2 (suc k) in
    let (z, e, lead, p', q', kept, two) = one_round 0 k y refl refl refl in
    let found = lockstep_lem k 1 z p' q' (λ n l. ap (λ f. f n) lead ∙ others n l) in
    let same = ap (interleave exec (lockstep k)) e in
    rw same (found.0, found.1, two_found k _ (found.2 0 (omega arith) ∙ two refl))
