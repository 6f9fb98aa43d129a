-- ===== src/SyncExamples/Elections/Order.antt =====
-- The threads of election2.c of sync-examples/ can always come to their end.
use performant_transactional.Base.{
  ℕ, zero, suc, ◌+◌, ◌<◌, Bool, true, false, none, List, ◌≡◌, refl, arith, ◌==◌, some,
}
use performant_transactional.Process.{ret, act, ◌>>◌}
use performant_transactional.Process.Blocking.Alone.{attempts, attempts-add, Finishes, all-Finishes}
use performant_transactional.SyncExamples.Elections.{
  Shared, Thread, claim, release, exec, round_locked, elect, begin, after_turns, election2,
}
use performant_transactional.SyncExamples.Elections.Ends.{round_locked-looks_correct}

abbrev IsFree : Shared → Type 0
IsFree s = s.holder ≡ none

abbrev Ended : Thread × Shared → Type 0
Ended x = ((a : Unit {0}) × (x.0 ≡ ret a)) × IsFree x.1

-- More turns than a thread needs.
spare :
    (i n : ℕ) (p : Thread) (s : Shared)
    → Ended (attempts exec i n p s)
    → Ended (attempts exec i (suc (suc n)) p s)
spare i n p s (a, h) = rw (two n) (rw (attempts-add exec i n 2 p s a.0 a.1) (a, h))
  where
    two : (n : ℕ) → suc (suc n) ≡ n + 2
    two n = omega arith

-- The end of a round, and what follows.
claim-Ended :
    (i tid r n : ℕ) (c : Bool) (p : Thread) (s : Shared)
    → ((t : Shared) → IsFree t → Ended (attempts exec i n p t))
    → Ended (attempts exec i (suc (suc (suc n))) (claim c tid r >> act release ret >> p) s)
unfolding attempts exec
claim-Ended i tid r n true p s f = f _ refl
claim-Ended i tid r n false p s f =
    spare i n p (record s { holder = none }) (f (record s { holder = none }) refl)

elect-Finishes : (i tid r k : ℕ) → Finishes exec IsFree i (elect round_locked tid r k)
unfolding Finishes attempts elect round_locked exec
elect-Finishes i tid r zero = (0, λ s p. ((tt, refl), p))
elect-Finishes i tid r (suc k) =
    let (n, f) = elect-Finishes i tid (r + 1) k in
    (
      suc (suc (suc (suc (suc n)))),
      λ s p. rw p (
          claim-Ended i tid r n (s.leader r == 0) (elect round_locked tid (r + 1) k)
            (record s { holder = some i }) f),
    )

-- For election2.c, with at least one thread, there is an order of turns in which all threads return, and
-- main finds exactly one leader counted for each round.
pub election2-returned :
    (nbthreads runs : ℕ)
    → 0 < nbthreads
    → (is : List ℕ) × (((i : ℕ)
          → i < nbthreads
          → (after_turns round_locked nbthreads runs is).threads i ≡ ret tt)
        × (election2 nbthreads runs is ≡ true))
unfolding after_turns begin
election2-returned nbthreads runs some_thread =
    let (is, (ends, stays)) =
      all-Finishes exec IsFree nbthreads (begin round_locked nbthreads runs) refl
        (λ i h. elect-Finishes i (i + 1) 0 _) in
    let over = λ (i : ℕ) (h : i < nbthreads). (ends i h).1 in
    (is, (over, round_locked-looks_correct nbthreads runs is some_thread over))
