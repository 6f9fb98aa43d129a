-- ===== src/SyncExamples/Elections/Ends.antt =====
-- The end of `main` in election2.c and election4.c of sync-examples/, in any order of turns.
use performant_transactional.Base.{
  ℕ, zero, suc, ◌+◌, ◌-◌, ◌*◌, ◌<◌, ◌≤◌, Bool, true, false, List, ◌≡◌, ◌≢◌, ◌⊎◌, refl, inl, inr,
  ◌==◌, ==_iff, Bool-cases, arith, length,
}
use performant_transactional.Process.{ret, System, ◌>>◌}
use performant_transactional.Process.Turns.{count}
use performant_transactional.Process.Blocking.{
  Meets, Meets-map, Meets-bind, IsSound, interleave-IsSound, start-IsSound, Post-returned,
}
use performant_transactional.Process.Blocking.Turns.{IsFree, IsFree-suc, interleave-IsFree}
use performant_transactional.SyncExamples.Elections.{
  Shared, Action, Answer, Thread, exec, boast, round_locked, election2, election4, round_exchange,
  elect, rounds_of, begin, after_turns, looks_correct,
}
use performant_transactional.SyncExamples.Elections.Rounds.{
  IsBefore, IsAfter, IsStable, IsBefore-IsStable, IsAfter-IsStable, electing, IsLoose,
  IsBefore-IsLoose, IsAfter-IsLoose,
}
use performant_transactional.SyncExamples.Elections.Exchange.{
  IsUnheld, IsUnheld-IsLocal, round_exchange_other, round_exchange_at,
}
use performant_transactional.SyncExamples.Elections.Locked.{
  Any, round_locked_other, round_locked_at,
}

-- All rounds of a thread, where one round is as the contract wants it.
module _ (Free : Shared → Type 0) (nbthreads r i : ℕ) (round : ℕ → ℕ → Thread)
    (other : (K : Shared → Type 0)
      → IsStable r i K
      → IsLoose K
      → (r' : ℕ) → r' ≢ r
      → (s : Shared) → K s
      → Meets exec (electing Free nbthreads r) i (round (i + 1) r') (λ _. K) s)
    (own : (s : Shared)
      → IsBefore r i s
      → Meets exec (electing Free nbthreads r) i (round (i + 1) r) (λ _. IsAfter r i) s) where
  Contracted : Thread → (Shared → Type 0) → Shared → Type 0
  Contracted p K s = Meets exec (electing Free nbthreads r) i p (λ _. K) s

  elect_later :
      (n q : ℕ) (s : Shared)
      → r < q
      → IsAfter r i s
      → Contracted (elect round (i + 1) q n) (IsAfter r i) s
  unfolding Contracted elect IsStable
  elect_later zero q s h a = λ t p. IsAfter-IsStable r i s t p a
  elect_later (suc n) q s h a =
      Meets-bind exec (electing Free nbthreads r) i (round (i + 1) q) _ (λ _. IsAfter r i)
        (λ _. IsAfter r i) s
        (other (IsAfter r i) (IsAfter-IsStable r i) (IsAfter-IsLoose r i) q
          (λ e. absurd (omega arith)) s a)
        (λ _ t b. elect_later n (q + 1) t (omega arith) b)

  pub elect-Meets :
      (n q : ℕ) (s : Shared)
      → q ≤ r
      → r < q + n
      → IsBefore r i s
      → Meets exec (electing Free nbthreads r) i (elect round (i + 1) q n) (λ _. IsAfter r i) s
  unfolding Contracted elect
  elect-Meets zero q s h g b = absurd (omega arith)
  elect-Meets (suc n) q s h g b = elim (Bool-cases (q == r)) [
    | inl e ↦
        Meets-bind exec (electing Free nbthreads r) i (round (i + 1) q) _ (λ _. IsAfter r i)
          (λ _. IsAfter r i) s (rw ((==_iff q r).0 e) (own s b))
          (λ _ t a. elect_later n (q + 1) t (after q r e) a)
    | inr e ↦
        Meets-bind exec (electing Free nbthreads r) i (round (i + 1) q) _ (λ _. IsBefore r i)
          (λ _. IsAfter r i) s
          (other (IsBefore r i) (IsBefore-IsStable r i) (IsBefore-IsLoose r i) q (apart q r e) s b)
          (λ _ t c. elect-Meets n (q + 1) t (below q r e h) (omega arith) c)
  ]
    where
      apart : (a c : ℕ) → (a == c) ≡ false → a ≢ c
      apart a c e k = ground arith

      after : (a c : ℕ) → (a == c) ≡ true → c < a + 1
      after a c e = ground arith

      below : (a c : ℕ) → (a == c) ≡ false → a ≤ c → a + 1 ≤ c
      below a c e k = ground arith

rounds_of-below : (nbthreads runs i : ℕ) → i < nbthreads → rounds_of nbthreads runs i ≡ runs
unfolding rounds_of
rounds_of-below nbthreads runs i h = ground arith

rounds_of-above : (nbthreads runs i : ℕ) → nbthreads ≤ i → rounds_of nbthreads runs i ≡ 0
unfolding rounds_of
rounds_of-above nbthreads runs i h = ground arith

looks_correct-all :
    (n q : ℕ) (nb : ℕ → ℕ) → ((r : ℕ) → q ≤ r → r < q + n → nb r ≡ 1) → looks_correct n q nb ≡ true
unfolding looks_correct
looks_correct-all zero q nb h = refl
looks_correct-all (suc n) q nb h =
    rw ((==_iff (nb q) 1).1 (h q (omega arith) (omega arith)))
      (looks_correct-all n (q + 1) nb (λ r a b. h r (omega arith) (omega arith)))

-- After its return a thread has seen a leader at round `r`.
unfoldable IsLed : ℕ → ℕ → ℕ → Unit {0} → Shared → Type 0
IsLed nbthreads r i a s = i < nbthreads → IsAfter r i s

module _ (Free : Shared → Type 0) (round : ℕ → ℕ → Thread) (nbthreads runs : ℕ)
    (free : Free (begin round nbthreads runs).shared)
    (other : (r i : ℕ) (K : Shared → Type 0)
      → IsStable r i K
      → IsLoose K
      → (r' : ℕ) → r' ≢ r
      → (s : Shared) → K s
      → Meets exec (electing Free nbthreads r) i (round (i + 1) r') (λ _. K) s)
    (own : (r i : ℕ)
      → i < nbthreads
      → (s : Shared) → IsBefore r i s
      → Meets exec (electing Free nbthreads r) i (round (i + 1) r) (λ _. IsAfter r i) s) where
  abbrev y : List ℕ → System Action Answer Shared (Unit {0})
  y is = after_turns round nbthreads runs is

  thread-Meets :
      (r i : ℕ)
      → r < runs
      → Meets exec
          (electing Free nbthreads r)
          i
          ((begin round nbthreads runs).threads i)
          (IsLed nbthreads r i)
          (begin round nbthreads runs).shared
  unfolding begin IsLed IsBefore elect
  thread-Meets r i h = elim (order nbthreads i) [
    | inl g ↦ rw (rounds_of-above nbthreads runs i g) (λ t p l. absurd (omega arith))
    | inr l ↦ rw (rounds_of-below nbthreads runs i l) (
        Meets-map exec (electing Free nbthreads r) i (elect round (i + 1) 0 runs) (λ _. IsAfter r i)
          (IsLed nbthreads r i) (begin round nbthreads runs).shared (λ a t k _. k)
          (elect-Meets Free nbthreads r i round (other r i) (own r i l) runs 0
            (begin round nbthreads runs).shared (omega arith) (omega arith)
            (λ e. absurd (omega arith))))
  ]
    where
      order : (a b : ℕ) → (a ≤ b) ⊎ (b < a)
      order a b = ground arith

  IsLed-IsSound :
      (r : ℕ) (is : List ℕ)
      → r < runs
      → IsSound exec (electing Free nbthreads r) (IsLed nbthreads r) 0 (y is)
  unfolding after_turns begin
  IsLed-IsSound r is h =
      interleave-IsSound exec (electing Free nbthreads r) (IsLed nbthreads r) is
        (begin round nbthreads runs)
        (start-IsSound exec (electing Free nbthreads r) (IsLed nbthreads r) (length is)
          (begin round nbthreads runs) ((λ _. refl), omega arith, free) (λ i. thread-Meets r i h))

  counted_once :
      (r : ℕ) (is : List ℕ)
      → r < runs
      → 0 < nbthreads
      → ((i : ℕ) → i < nbthreads → (y is).threads i ≡ ret tt)
      → (y is).shared.nb_leaders r ≡ 1
  unfolding IsLed IsAfter
  counted_once r is h g e =
      let led = (after 0 g).0 in
      let few = sound.inv.1 in
      (after (s.leader r - 1) (omega (arith, led, few))).1 (omega (arith, led))
    where
      s : Shared
      s = (y is).shared

      sound : IsSound exec (electing Free nbthreads r) (IsLed nbthreads r) 0 (y is)
      sound = IsLed-IsSound r is h

      after : (i : ℕ) → i < nbthreads → IsAfter r i s
      after i l =
          Post-returned exec (electing Free nbthreads r) (IsLed nbthreads r) 0 i tt (y is) sound
            (e i l) l

  pub all-looks_correct :
      (is : List ℕ)
      → 0 < nbthreads
      → ((i : ℕ) → i < nbthreads → (y is).threads i ≡ ret tt)
      → looks_correct runs 0 (y is).shared.nb_leaders ≡ true
  all-looks_correct is g e =
      looks_correct-all runs 0 (y is).shared.nb_leaders (λ r a b. counted_once r is (below r b) g e)
    where
      below : (r : ℕ) → r < 0 + runs → r < runs
      below r h = omega arith

-- The threads of election2.c, in whatever order they take their turns: when all have returned, `main`
-- finds exactly one leader counted for each round.
pub round_locked-looks_correct :
    (nbthreads runs : ℕ) (is : List ℕ)
    → 0 < nbthreads
    → ((i : ℕ) → i < nbthreads → (after_turns round_locked nbthreads runs is).threads i ≡ ret tt)
    → election2 nbthreads runs is ≡ true
round_locked-looks_correct nbthreads runs is g e =
    all-looks_correct Any round_locked nbthreads runs tt
      (λ r i K stable loose r' d s k.
        round_locked_other nbthreads r i K stable r' d (i + 1) s loose k)
      (λ r i l s b. round_locked_at nbthreads r i l s b) is g e

boast-IsFree :
    (i n q : ℕ) (won : Bool) (p : Thread)
    → IsFree exec i n p
    → IsFree exec i (suc n) (boast won q >> p)
unfolding IsFree exec
boast-IsFree i n q true p h = ((λ s. (_, _, refl)), λ _. h)
boast-IsFree i n q false p h = IsFree-suc exec i n p h

round_exchange-IsFree : (i tid n q : ℕ) → IsFree exec i (n * 2) (elect round_exchange tid q n)
unfolding IsFree elect round_exchange exec
round_exchange-IsFree i tid zero q = tt
round_exchange-IsFree i tid (suc n) q = rw (double n) (
  (λ s. (_, _, refl)),
  λ won.
      boast-IsFree i (n * 2) q won (elect round_exchange tid (q + 1) n)
        (round_exchange-IsFree i tid n (q + 1)),
)
  where
    double : (n : ℕ) → suc n * 2 ≡ suc (suc (n * 2))
    double n = omega arith

-- The threads of election4.c, in whatever order they take their turns: when each has had two turns
-- for each round, `main` finds exactly one leader counted for each round.
pub round_exchange-looks_correct :
    (nbthreads runs : ℕ) (is : List ℕ)
    → 0 < nbthreads
    → ((i : ℕ) → i < nbthreads → runs * 2 ≤ count i is)
    → election4 nbthreads runs is ≡ true
unfolding after_turns begin IsUnheld
round_exchange-looks_correct nbthreads runs is g h =
    all-looks_correct IsUnheld round_exchange nbthreads runs refl
      (λ r i K stable loose r' d s k.
        round_exchange_other IsUnheld IsUnheld-IsLocal nbthreads r i K stable r' d (i + 1) s k)
      (λ r i l s b. round_exchange_at nbthreads r i l s b) is g
      (λ i l.
        (interleave-IsFree exec is (runs * 2) i (begin round_exchange nbthreads runs)
          (rw (rounds_of-below nbthreads runs i l) (round_exchange-IsFree i (i + 1) runs 0))
          (h i l)).1)
