-- ===== src/SyncExamples/Counters/Lost.antt =====
-- counter1.c and counter3.c of sync-examples/: a load and then a store lose rounds.
use performant_transactional.Base.{
  ℕ, zero, suc, ◌+◌, ◌%◌, ◌^◌, ◌<◌, List, [], ◌∷◌, ◌≡◌, refl, ap, ◌∙◌, false, ◌*◌, ◌==◌, arith,
}
use performant_transactional.Process.{ret, act, System}
use performant_transactional.Process.Blocking.{turn, interleave}
use performant_transactional.Process.Blocking.Turns.{turn-at}
use performant_transactional.SyncExamples.Counters.{
  Shared, int_mod, Action, load, store, counted_up, counter3, Answer, exec, count_plain,
  count_atomic, runs_of, begin, after_turns,
}

-- Both threads load, and then both store.
unfoldable pub lockstep : ℕ → List ℕ
lockstep zero = []
lockstep (suc n) = 0 ∷ 1 ∷ 0 ∷ 1 ∷ lockstep n

abbrev Sys : Type 0
Sys = System Action Answer Shared (Unit {0})

one_round :
    (k : ℕ) (y : Sys)
    → y.threads 0 ≡ count_atomic (suc k)
    → y.threads 1 ≡ count_atomic (suc k)
    → (z : Sys) × (turn exec 1 (turn exec 0 (turn exec 1 (turn exec 0 y))) ≡ z)
      × (z.shared.counter ≡ (y.shared.counter + 1) % int_mod)
      × (z.threads 0 ≡ count_atomic k)
      × (z.threads 1 ≡ count_atomic k)
unfolding count_atomic exec
one_round k y p q = (
  _,
  ap (λ a. turn exec 1 (turn exec 0 (turn exec 1 a))) (turn-at exec 0 y _ p)
      ∙ ap (λ a. turn exec 1 (turn exec 0 a)) (turn-at exec 1 _ _ q)
      ∙ ap (λ a. turn exec 1 a) (turn-at exec 0 _ _ refl)
      ∙ turn-at exec 1 _ _ refl,
  refl,
  refl,
  refl,
)

lockstep_lem :
    (k : ℕ) (y : Sys)
    → y.shared.counter + k < 2 ^ 31
    → y.threads 0 ≡ count_atomic k
    → y.threads 1 ≡ count_atomic k
    → ((interleave exec (lockstep k) y).shared.counter ≡ y.shared.counter + k)
      × ((interleave exec (lockstep k) y).threads 0 ≡ ret tt)
      × ((interleave exec (lockstep k) y).threads 1 ≡ ret tt)
unfolding interleave lockstep count_atomic
lockstep_lem zero y h p q = (omega arith, p, q)
lockstep_lem (suc k) y h p q =
    let (z, e, c, p', q') = one_round k y p q in
    let found = lockstep_lem k z (omega arith) p' q' in
    let same = ap (interleave exec (lockstep k)) e in
    rw same (found.0 ∙ omega arith, found.1, found.2)

count_plain-eq-count_atomic : (k : ℕ) → count_plain k ≡ count_atomic k
unfolding count_plain count_atomic
count_plain-eq-count_atomic zero = refl
count_plain-eq-count_atomic (suc k) =
    ap (λ p. act load (λ local. act (store ((local + 1) % int_mod)) (λ _. p)))
      (count_plain-eq-count_atomic k)

zero_add : (n : ℕ) → 0 + n ≡ n
zero_add n = omega arith

half : (runs c : ℕ) → 0 < runs → c ≡ 0 + runs → (c == runs * 2) ≡ false
half runs c h e = ground arith

-- Two threads of counter3.c, with at least one round each and fewer than 2 ^ 31, that take their turns in
-- lockstep lose every second round: after the turns both have returned, the counter is as many as
-- the rounds of one thread, where both together made twice as many, and `main` does not find that
-- they counted up to the whole.
pub count_atomic-counted_up :
    (runs : ℕ)
    → 0 < runs
    → runs < 2 ^ 31
    → let y = after_turns count_atomic 2 runs (lockstep runs) in
      (y.threads 0 ≡ ret tt)
      × (y.threads 1 ≡ ret tt)
      × (y.shared.counter ≡ runs)
      × (counter3 2 runs (lockstep runs) ≡ false)
unfolding after_turns begin runs_of counted_up
count_atomic-counted_up runs h room =
    let y : Sys = begin count_atomic 2 runs in
    let found = lockstep_lem runs y (omega arith) refl refl in
    (found.1, found.2, found.0 ∙ zero_add runs, half runs _ h found.0)
