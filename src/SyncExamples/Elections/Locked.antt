-- ===== src/SyncExamples/Elections/Locked.antt =====
-- A round of election2.c of sync-examples/ while the others take their turns.
use performant_transactional.Base.{
  ℕ, suc, ◌+◌, ◌%◌, ◌<◌, Bool, true, false, Option, none, some, ◌≡◌, ◌≢◌, refl, ◌∙◌, inl, inr, ◌==◌,
  ==_iff, Bool-cases, Option-cases, arith,
}
use performant_transactional.Process.{ret, act, ◌>>=◌, ◌>>◌, update, update_own, update_else}
use performant_transactional.Process.Blocking.{Meets, Meets-bind, Owes}
use performant_transactional.SyncExamples.Elections.{
  Shared, int_mod, load_leader, add_leader, acquire, release, take, exec, claim, round_locked,
  Thread,
}
use performant_transactional.SyncExamples.Elections.Rounds.{
  Respects, Respects-refl, IsBefore, IsAfter, IsStable, IsBefore-IsStable, IsAfter-IsStable,
  electing, IsLocal, IsLoose, IsBefore-IsLoose, IsAfter-IsLoose, Same, Same-kept, Same-Respects,
}

-- Nothing is asked of the lock.
abbrev pub Any : Shared → Type 0
Any s = Unit

pub Any-IsLocal : IsLocal Any
unfolding IsLocal
Any-IsLocal s t e h = tt

-- The holder of the lock is nobody else.
not_other : {o : Option ℕ} {i j : ℕ} → i ≢ j → o ≡ some i → o ≡ some j → ⊥
not_other d a b = d cc

not_taken : {o : Option ℕ} {j : ℕ} → o ≡ none → o ≡ some j → ⊥
not_taken e h = absurd cc

unfoldable pub Held : ℕ → (Shared → Type 0) → Shared → Type 0
Held i K s = (s.holder ≡ some i) × K s

module _ (nbthreads r i : ℕ) where
  open electing Any nbthreads r use {Inv, Rely}

  Held-IsStable : (K : Shared → Type 0) → IsStable r i K → IsStable r i (Held i K)
  unfolding IsStable Held Respects
  Held-IsStable K stable s t p h = ((p.3 h.0).0, stable s t p h.1)

  take-Owes :
      (n : ℕ) (s : Shared) (P : Unit {0} → Shared → Type 0)
      → Inv (suc n) s
      → P tt (record s { holder = some i })
      → Owes exec (electing Any nbthreads r) i n s P (take i s.holder s)
  unfolding Respects
  take-Owes n s P inv p = elim (Option-cases s.holder) [
    | inl e ↦ rw e (inv, λ j d. (λ _. refl, λ h. h, λ _. refl, λ h. absurd (not_taken refl h)), p)
    | inr (j, e) ↦ rw e tt
  ]

  module _ (K : Shared → Type 0) (stable : IsStable r i K) (loose : IsLoose K) where
    acquire-Meets :
        (s : Shared)
        → K s
        → Meets exec (electing Any nbthreads r) i (act acquire ret) (λ _. Held i K) s
    unfolding exec Held IsLoose IsStable
    acquire-Meets s k = λ n t p inv. take-Owes n t _ inv (λ u q.
        Held-IsStable K stable (record t { holder = some i }) u q
          (refl, loose t (some i) (stable s t p k)))

    release-Meets :
        (s : Shared)
        → Held i K s
        → Meets exec (electing Any nbthreads r) i (act release ret) (λ _. K) s
    unfolding exec Held IsLoose IsStable Respects
    release-Meets s h = λ n t p inv.
        let held = Held-IsStable K stable s t p h in
        (
          inv,
          λ j d. (λ _. refl, λ g. g, λ _. refl, λ g. absurd (not_other d held.0 g)),
          λ u q. stable (record t { holder = none }) u q (loose t none held.1),
        )

  -- A critical section between the two.
  in_lock :
      (K L : Shared → Type 0)
      → IsStable r i K
      → IsStable r i L
      → IsLoose K
      → IsLoose L
      → (p : Thread)
      → ((s : Shared) → Held i K s → Meets exec (electing Any nbthreads r) i p (λ _. Held i L) s)
      → (s : Shared) → K s
      → Meets exec
          (electing Any nbthreads r)
          i
          (act acquire ret >> (p >> act release ret))
          (λ _. L)
          s
  in_lock K L stable stable' loose loose' p meets s k =
      Meets-bind exec (electing Any nbthreads r) i (act acquire ret) _ (λ _. Held i K) (λ _. L) s
        (acquire-Meets K stable loose s k)
        (λ _ t h.
          Meets-bind exec (electing Any nbthreads r) i p _ (λ _. Held i L) (λ _. L) t (meets t h)
            (λ _ u g. release-Meets L stable' loose' u g))

  -- The critical section of another round.
  module _ (K : Shared → Type 0) (stable : IsStable r i K) (r' : ℕ) (other : r' ≢ r) where
    claim_other :
        (c : Bool) (tid : ℕ) (s : Shared)
        → Held i K s
        → Meets exec (electing Any nbthreads r) i (claim c tid r') (λ _. Held i K) s
    unfolding exec Same IsStable
    claim_other false tid s h = λ t p. Held-IsStable K stable s t p h
    claim_other true tid s h = λ n t p inv.
        let u : Shared = record t { leader = update t.leader r' tid } in
        let m : Same r t u = (update_else t.leader r' r tid other, refl, refl) in
        let kept = Same-kept Any Any-IsLocal nbthreads r i n t u inv m in
        (
          kept.0,
          kept.1,
          λ n1 t1 p1 inv1.
              let u1 : Shared = record t1 {
                nb_leaders = update t1.nb_leaders r' ((t1.nb_leaders r' + 1) % int_mod);
              } in
              let m1 : Same r t1 u1 = (refl, update_else t1.nb_leaders r' r _ other, refl) in
              let kept1 = Same-kept Any Any-IsLocal nbthreads r i n1 t1 u1 inv1 m1 in
              (
                kept1.0,
                kept1.1,
                λ v q. Held-IsStable K stable u1 v q (
                    Held-IsStable K stable t1 u1 (Same-Respects r i t1 u1 m1) (
                      Held-IsStable K stable u t1 p1 (
                        Held-IsStable K stable t u (Same-Respects r i t u m)
                          (Held-IsStable K stable s t p h)))),
              ),
        )

    section_other :
        (tid : ℕ) (s : Shared)
        → Held i K s
        → Meets exec
            (electing Any nbthreads r)
            i
            (act (load_leader r') ret >>= λ seen. claim (seen == 0) tid r')
            (λ _. Held i K)
            s
    unfolding exec Respects IsStable
    section_other tid s h = λ n t p inv. (
      inv,
      λ j d. Respects-refl r j t,
      claim_other (t.leader r' == 0) tid t (Held-IsStable K stable s t p h),
    )

    pub round_locked_other :
        (tid : ℕ) (s : Shared)
        → IsLoose K
        → K s
        → Meets exec (electing Any nbthreads r) i (round_locked tid r') (λ _. K) s
    unfolding round_locked
    round_locked_other tid s loose k =
        in_lock K K stable stable loose loose
          (act (load_leader r') ret >>= λ seen. claim (seen == 0) tid r') (section_other tid) s k

  module _ (below : i < nbthreads) where
    -- The thread became the leader, and counts itself.
    add_own :
        (s : Shared)
        → s.holder ≡ some i
        → s.leader r ≡ i + 1
        → s.nb_leaders r ≡ 0
        → Meets exec
            (electing Any nbthreads r)
            i
            (act (add_leader r) ret)
            (λ _. Held i (IsAfter r i))
            s
    unfolding exec Respects IsAfter IsStable Held
    add_own s o e z = λ n t p inv.
        let lead = p.0 (λ g. absurd (omega arith)) ∙ e in
        let nb = p.2 e ∙ z in
        let held = p.3 o in
        let u : Shared = record t {
          nb_leaders = update t.nb_leaders r ((t.nb_leaders r + 1) % int_mod);
        } in
        (
          ((λ g. absurd (omega arith)), inv.1, tt),
          λ j d. (
            λ _. refl,
            λ h. h,
            λ h. absurd (d (omega arith)),
            λ h. absurd (not_other d held.0 h),
          ),
          λ v q. Held-IsStable (IsAfter r i) (IsAfter-IsStable r i) u v q (
            held.0,
            (
              (λ g. absurd (omega arith)),
              λ g. update_own t.nb_leaders r ((t.nb_leaders r + 1) % int_mod) ∙ counted _ nb,
            ),
          ),
        )
      where
        counted : (v : ℕ) → v ≡ 0 → (v + 1) % int_mod ≡ 1
        counted v h = omega arith

    -- Nobody is the leader, and the thread holds the lock.
    claim_own :
        (s : Shared)
        → s.holder ≡ some i
        → s.leader r ≡ 0
        → s.nb_leaders r ≡ 0
        → Meets exec
            (electing Any nbthreads r)
            i
            (claim true (i + 1) r)
            (λ _. Held i (IsAfter r i))
            s
    unfolding exec Respects
    claim_own s o e z = λ n t p inv.
        let held = p.3 o in
        let own = update_own t.leader r (i + 1) in
        let free = held.1 ∙ e in
        (
          ((λ g. absurd (omega arith)), omega arith, tt),
          λ j d. (
            λ h. absurd (h free),
            λ h g. d (omega arith),
            λ h. absurd (omega arith),
            λ h. absurd (not_other d held.0 h),
          ),
          add_own (record t { leader = update t.leader r (i + 1) }) held.0 own (held.2 ∙ z),
        )

    section_own :
        (s : Shared)
        → Held i (IsBefore r i) s
        → Meets exec
            (electing Any nbthreads r)
            i
            (act (load_leader r) ret >>= λ seen. claim (seen == 0) (i + 1) r)
            (λ _. Held i (IsAfter r i))
            s
    unfolding exec Respects Held IsBefore IsAfter IsStable
    section_own s h = λ n t p inv. elim (Bool-cases (t.leader r == 0)) [
      | inl e ↦
          let free = (==_iff (t.leader r) 0).0 e in
          rw e (inv, λ j d. Respects-refl r j t, claim_own t (p.3 h.0).0 free (inv.0 free))
      | inr e ↦ rw e (
        inv,
        λ j d. Respects-refl r j t,
        λ u q.
            Held-IsStable (IsAfter r i) (IsAfter-IsStable r i) t u q
              ((p.3 h.0).0, (taken _ e, λ g. absurd (p.1 h.1 g))),
      )
    ]
      where
        taken : (v : ℕ) → (v == 0) ≡ false → v ≢ 0
        taken v h g = ground arith

    pub round_locked_at :
        (s : Shared)
        → IsBefore r i s
        → Meets exec (electing Any nbthreads r) i (round_locked (i + 1) r) (λ _. IsAfter r i) s
    unfolding round_locked
    round_locked_at s b =
        in_lock (IsBefore r i) (IsAfter r i) (IsBefore-IsStable r i) (IsAfter-IsStable r i)
          (IsBefore-IsLoose r i) (IsAfter-IsLoose r i)
          (act (load_leader r) ret >>= λ seen. claim (seen == 0) (i + 1) r) section_own s b
