-- ===== src/SyncExamples/Elections/Rounds.antt =====
-- What the threads of election2.c and election4.c of sync-examples/ rely on, about one round.
use performant_transactional.Base.{ℕ, suc, ◌+◌, ◌≤◌, Option, some, ◌≡◌, ◌≢◌, refl, sym, ◌∙◌, arith}
use performant_transactional.Process.Rely.{Contract}
use performant_transactional.SyncExamples.Elections.{Shared}

-- A leader stays, a thread becomes leader only by itself, the leader alone is counted, and nobody
-- touches the elements while a thread holds the lock.
unfoldable pub Respects : ℕ → ℕ → Shared → Shared → Type 0
Respects r i s t =
    (s.leader r ≢ 0 → t.leader r ≡ s.leader r)
    × (s.leader r ≢ i + 1 → t.leader r ≢ i + 1)
    × (s.leader r ≡ i + 1 → t.nb_leaders r ≡ s.nb_leaders r)
    × (s.holder ≡ some i
        → (t.holder ≡ some i) × (t.leader r ≡ s.leader r) × (t.nb_leaders r ≡ s.nb_leaders r))

pub Respects-refl : (r i : ℕ) (s : Shared) → Respects r i s s
unfolding Respects
Respects-refl r i s = (λ _. refl, λ h. h, λ _. refl, λ h. (h, refl, refl))

pub Respects-trans :
    (r i : ℕ) (s t u : Shared) → Respects r i s t → Respects r i t u → Respects r i s u
unfolding Respects
Respects-trans r i s t u p q = (
  λ h. q.0 (λ e. h (sym (p.0 h) ∙ e)) ∙ p.0 h,
  λ h. q.1 (p.1 h),
  λ h. q.2 (p.0 (λ e. absurd (omega arith)) ∙ h) ∙ p.2 h,
  λ h. let a = p.3 h in let b = q.3 a.0 in (b.0, b.1 ∙ a.1, b.2 ∙ a.2),
)

-- Before its turn at `r` a thread is not the leader; after it there is one, who was counted once.
unfoldable pub IsBefore : ℕ → ℕ → Shared → Type 0
IsBefore r i s = s.leader r ≢ i + 1

unfoldable pub IsAfter : ℕ → ℕ → Shared → Type 0
IsAfter r i s = (s.leader r ≢ 0) × (s.leader r ≡ i + 1 → s.nb_leaders r ≡ 1)

-- What others do keeps it.
unfoldable pub IsStable : ℕ → ℕ → (Shared → Type 0) → Type 0
IsStable r i K = (s t : Shared) → Respects r i s t → K s → K t

pub IsBefore-IsStable : (r i : ℕ) → IsStable r i (IsBefore r i)
unfolding IsBefore IsStable Respects
IsBefore-IsStable r i s t p h = p.1 h

pub IsAfter-IsStable : (r i : ℕ) → IsStable r i (IsAfter r i)
unfolding IsAfter IsStable Respects
IsAfter-IsStable r i s t p h =
    (λ e. h.0 (sym (p.0 h.0) ∙ e), λ e. p.2 (sym (p.0 h.0) ∙ e) ∙ h.1 (sym (p.0 h.0) ∙ e))

-- A predicate on the elements, not on the lock.
unfoldable pub IsLoose : (Shared → Type 0) → Type 0
IsLoose K = (s : Shared) (o : Option ℕ) → K s → K (record s { holder = o })

pub IsBefore-IsLoose : (r i : ℕ) → IsLoose (IsBefore r i)
unfolding IsLoose IsBefore
IsBefore-IsLoose r i s o k = k

pub IsAfter-IsLoose : (r i : ℕ) → IsLoose (IsAfter r i)
unfolding IsLoose IsAfter
IsAfter-IsLoose r i s o k = k

-- The contract at round `r`, with what holds of the lock.
abbrev pub electing : (Shared → Type 0) → ℕ → ℕ → Contract Shared
electing Free nbthreads r = record {
  Inv = λ n s. (s.leader r ≡ 0 → s.nb_leaders r ≡ 0) × (s.leader r ≤ nbthreads) × Free s;
  Rely = Respects r;
  Stuck = λ i s. Unit;
  idle = λ n s inv. inv;
  rely_refl = Respects-refl r;
  rely_trans = Respects-trans r;
}

-- The elements of round `r` and the lock are as before.
unfoldable pub Same : ℕ → Shared → Shared → Type 0
Same r s t = (t.leader r ≡ s.leader r) × (t.nb_leaders r ≡ s.nb_leaders r) × (t.holder ≡ s.holder)

pub Same-Respects : (r i : ℕ) (s t : Shared) → Same r s t → Respects r i s t
unfolding Same Respects
Same-Respects r i s t m = (λ _. m.0, λ h e. h (sym m.0 ∙ e), λ _. m.1, λ h. (m.2 ∙ h, m.0, m.1))

-- Whether the lock is free is all that `Free` may speak of.
unfoldable pub IsLocal : (Shared → Type 0) → Type 0
IsLocal Free = (s t : Shared) → t.holder ≡ s.holder → Free s → Free t

module _ (Free : Shared → Type 0) (local : IsLocal Free) (nbthreads r i : ℕ) where
  open electing Free nbthreads r use {Inv, Rely}

  pub Same-Inv : (n : ℕ) (s t : Shared) → Same r s t → Inv (suc n) s → Inv n t
  unfolding Same IsLocal
  Same-Inv n s t m inv = (λ e. m.1 ∙ inv.0 (sym m.0 ∙ e), rw m.0 inv.1, local s t m.2 inv.2)

  -- An action on another round.
  pub Same-kept :
      (n : ℕ) (s t : Shared) → Inv (suc n) s → Same r s t → Inv n t × ((j : ℕ) → i ≢ j → Rely j s t)
  Same-kept n s t inv m = (Same-Inv n s t m inv, λ j d. Same-Respects r j s t m)
