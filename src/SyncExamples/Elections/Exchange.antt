-- ===== src/SyncExamples/Elections/Exchange.antt =====
-- A round of election4.c of sync-examples/ while the others take their turns.
use performant_transactional.Base.{
  ℕ, ◌+◌, ◌%◌, ◌<◌, Bool, true, false, Option, none, some, ◌≡◌, ◌≢◌, refl, ◌∙◌, inl, inr, ◌==◌,
  ==_iff, Bool-cases, arith,
}
use performant_transactional.Process.{ret, act, update, update_own, update_else}
use performant_transactional.Process.Blocking.{Meets}
use performant_transactional.SyncExamples.Elections.{
  Shared, int_mod, exchanged, add_leader, exec, boast, round_exchange,
}
use performant_transactional.SyncExamples.Elections.Rounds.{
  Respects, Respects-refl, IsBefore, IsAfter, IsStable, IsAfter-IsStable, electing, Same,
  Same-Respects, IsLocal, Same-kept,
}

module _ (Free : Shared → Type 0) (local : IsLocal Free) (nbthreads r i : ℕ) (K : Shared → Type 0)
    (stable : IsStable r i K) (r' : ℕ) (other : r' ≢ r) where
  open electing Free nbthreads r use {Inv, Rely}

  exchanged-Same : (c : Bool) (tid : ℕ) (s : Shared) → Same r s (exchanged c r' tid s).1
  unfolding Same
  exchanged-Same true tid s = (update_else s.leader r' r tid other, refl, refl)
  exchanged-Same false tid s = (refl, refl, refl)

  step-K : (s t u : Shared) → Respects r i s t → Same r t u → K s → K u
  unfolding IsStable
  step-K s t u p m k = stable t u (Same-Respects r i t u m) (stable s t p k)

  add_leader-Meets :
      (s : Shared)
      → K s
      → Meets exec (electing Free nbthreads r) i (act (add_leader r') ret) (λ _. K) s
  unfolding exec Same IsStable
  add_leader-Meets s k = λ n t p inv.
      let u : Shared = record t {
        nb_leaders = update t.nb_leaders r' ((t.nb_leaders r' + 1) % int_mod);
      } in
      let m : Same r t u = (refl, update_else t.nb_leaders r' r _ other, refl) in
      let kept = Same-kept Free local nbthreads r i n t u inv m in
      (kept.0, kept.1, λ v q. stable u v q (step-K s t u p m k))

  boast-Meets :
      (c : Bool) (s : Shared)
      → K s
      → Meets exec (electing Free nbthreads r) i (boast c r') (λ _. K) s
  unfolding IsStable
  boast-Meets true s k = add_leader-Meets s k
  boast-Meets false s k = λ t p. stable s t p k

  pub round_exchange_other :
      (tid : ℕ) (s : Shared)
      → K s
      → Meets exec (electing Free nbthreads r) i (round_exchange tid r') (λ _. K) s
  unfolding round_exchange exec
  round_exchange_other tid s k = λ n t p inv.
      let (won, u) = exchanged (t.leader r' == 0) r' tid t in
      let m = exchanged-Same (t.leader r' == 0) tid t in
      let kept = Same-kept Free local nbthreads r i n t u inv m in
      (kept.0, kept.1, boast-Meets won u (step-K s t u p m k))

-- Nobody holds the lock.
unfoldable pub IsUnheld : Shared → Type 0
IsUnheld s = s.holder ≡ none

pub IsUnheld-IsLocal : IsLocal IsUnheld
unfolding IsLocal IsUnheld
IsUnheld-IsLocal s t e h = e ∙ h

unheld : {o : Option ℕ} {j : ℕ} → o ≡ none → o ≡ some j → ⊥
unheld e h = absurd cc

module _ (nbthreads r i : ℕ) (below : i < nbthreads) where
  open electing IsUnheld nbthreads r use {Inv, Rely}

  -- The winner is counted.
  boast-IsAfter :
      (s : Shared)
      → s.leader r ≡ i + 1
      → s.nb_leaders r ≡ 0
      → Meets exec (electing IsUnheld nbthreads r) i (boast true r) (λ _. IsAfter r i) s
  unfolding exec Respects IsAfter IsUnheld IsStable
  boast-IsAfter s e z = λ n t p inv.
      let lead = p.0 (λ g. absurd (omega arith)) ∙ e in
      let nb = p.2 e ∙ z in
      let u : Shared = record t {
        nb_leaders = update t.nb_leaders r ((t.nb_leaders r + 1) % int_mod);
      } in
      (
        ((λ g. absurd (omega arith)), inv.1, inv.2),
        λ j d. (λ _. refl, λ h. h, λ h. absurd (d (omega arith)), λ h. absurd (unheld inv.2 h)),
        λ v q. IsAfter-IsStable r i u v q (
          λ g. absurd (omega arith),
          λ g. update_own t.nb_leaders r ((t.nb_leaders r + 1) % int_mod) ∙ counted _ nb,
        ),
      )
    where
      counted : (v : ℕ) → v ≡ 0 → (v + 1) % int_mod ≡ 1
      counted v h = omega arith

  pub round_exchange_at :
      (s : Shared)
      → IsBefore r i s
      → Meets exec (electing IsUnheld nbthreads r) i (round_exchange (i + 1) r) (λ _. IsAfter r i) s
  unfolding round_exchange exec Respects IsBefore IsAfter IsUnheld IsStable
  round_exchange_at s b = λ n t p inv. elim (Bool-cases (t.leader r == 0)) [
    | inl e ↦
        let none_yet = (==_iff (t.leader r) 0).0 e in
        let own = update_own t.leader r (i + 1) in
        rw e (
          ((λ g. absurd (omega arith)), omega arith, inv.2),
          λ j d. (
            λ h. absurd (h none_yet),
            λ h g. d (omega arith),
            λ h. refl,
            λ h. absurd (unheld inv.2 h),
          ),
          boast-IsAfter (exchanged true r (i + 1) t).1 own (inv.0 none_yet),
        )
    | inr e ↦ rw e (
      inv,
      λ j d. Respects-refl r j t,
      λ u q. IsAfter-IsStable r i t u q (taken _ e, λ h. absurd (p.1 b h)),
    )
  ]
    where
      taken : (v : ℕ) → (v == 0) ≡ false → v ≢ 0
      taken v h g = ground arith
