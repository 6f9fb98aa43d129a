-- ===== src/Stm/Clock/Actions.antt =====
-- The rules by which a program keeps the version clock, and the programs without a choice.
use performant_transactional.Base.{
  ℕ, zero, suc, ◌+◌, ◌≤◌, Bool, true, false, Option, none, some, arith, List, [], ◌∷◌,
  if◌then◌else◌,
}
use performant_transactional.Process.{ret, act, ◌>>=◌}
use performant_transactional.Process.Rely.{Meets, Meets-bind}
use performant_transactional.Stm.State.{
  State, Act, Res, exec, Tm, load_bytes, store_bytes, clear_bytes, release_all,
}
use performant_transactional.Stm.Lock.{lock, unlock, get_version, is_locked, set_version}
use performant_transactional.Stm.Lock.Words.{
  unlocked_word-le, locked_version, locked-lt, unlocked-lt, version_word-le, version_word-lt,
}
use performant_transactional.Stm.Clock.{IsTimely, clock, Permits, exec-IsTimely}

abbrev pub Always : {A : Type 0} → A → State → Type 0
Always a s = Unit

module _ (i : ℕ) where
  -- Thread `i` keeps the clock through `m`, and then `Q` holds.
  pub record Keeps {A : Type 0} (m : Tm A) (Q : A → State → Type 0) (s : State) : Type 0 where
    pub meets : Meets (λ _. exec) clock i m Q s

  -- One action, and then the rest.
  pub act-Keeps :
      {A : Type 0} {a : Act} {k : Res a → Tm A} {Q : A → State → Type 0} {s : State}
      → ((n : ℕ) (t : State)
          → s.gvc ≤ t.gvc
          → IsTimely (suc n) t
          → Permits a t × Keeps (k (exec a t).0) Q (exec a t).1)
      → Keeps (act a k) Q s
  act-Keeps {a} h = record {
    meets = λ n t r inv.
        let v = h n t r inv in
        let e = exec-IsTimely a n t v.0 inv in (e.0, (λ j _. e.1), v.1.meets);
  }

  pub bind-Keeps :
      {A B : Type 0} {m : Tm A} {f : A → Tm B} {s : State} {Q : A → State → Type 0}
      {Q' : B → State → Type 0}
      → Keeps m Q s
      → ((a : A) (t : State) → Q a t → Keeps (f a) Q' t)
      → Keeps (m >>= f) Q' s
  bind-Keeps {m} {f} {s} {Q} {Q'} h next = record {
    meets = Meets-bind (λ _. exec) clock i m f Q Q' s h.meets (λ a t q. (next a t q).meets);
  }

  -- A sequence whose first part is always kept.
  pub seq-Keeps :
      {A B : Type 0} {m : Tm A} {f : A → Tm B} {s : State}
      → Keeps m Always s
      → ((a : A) (t : State) → Keeps (f a) Always t)
      → Keeps (m >>= f) Always s
  seq-Keeps h next = bind-Keeps h (λ a t _. next a t)

  -- The clock does not go back during a program.
  since-Meets :
      {A : Type 0} (c : ℕ) (m : Tm A) (Q : A → State → Type 0) (s : State)
      → c ≤ s.gvc
      → Meets (λ _. exec) clock i m Q s
      → Meets (λ _. exec) clock i m (λ a t. Q a t × (c ≤ t.gvc)) s
  since-Meets c (ret a) Q s le h = λ t r. (h t r, omega arith)
  since-Meets c (act a k) Q s le h = λ n t r inv.
      let v = h n t r inv in
      let later = v.1 (suc i) (omega arith) in
      (v.0, v.1, since-Meets c (k (exec a t).0) Q (exec a t).1 (omega arith) v.2)

  pub since-Keeps :
      {A : Type 0} {m : Tm A} {Q : A → State → Type 0} {s : State} (c : ℕ)
      → c ≤ s.gvc
      → Keeps m Q s
      → Keeps m (λ a t. Q a t × (c ≤ t.gvc)) s
  since-Keeps {m} {Q} {s} c le h = record { meets = since-Meets c m Q s le h.meets }

  pub done : {A : Type 0} {a : A} {s : State} → Keeps (ret a) Always s
  done = record { meets = λ t r. tt }

  pub load_bytes-Keeps : (a n : ℕ) (s : State) → Keeps (load_bytes a n) Always s
  unfolding load_bytes
  load_bytes-Keeps a zero s = done
  load_bytes-Keeps a (suc n) s =
      act-Keeps λ _ t r inv. (tt, seq-Keeps (load_bytes-Keeps (a + 1) n _) λ bs u. done)

  pub store_bytes-Keeps : (a : ℕ) (bs : List ℕ) (s : State) → Keeps (store_bytes a bs) Always s
  unfolding store_bytes
  store_bytes-Keeps a [] s = done
  store_bytes-Keeps a (b ∷ bs) s = act-Keeps λ _ t r inv. (tt, store_bytes-Keeps (a + 1) bs _)

  pub clear_bytes-Keeps : (a n : ℕ) (s : State) → Keeps (clear_bytes a n) Always s
  unfolding clear_bytes
  clear_bytes-Keeps a zero s = done
  clear_bytes-Keeps a (suc n) s = act-Keeps λ _ t r inv. (tt, clear_bytes-Keeps (a + 1) n _)

  pub release_all-Keeps : (ps : List ℕ) (s : State) → Keeps (release_all ps) Always s
  unfolding release_all
  release_all-Keeps [] s = done
  release_all-Keeps (p ∷ ps) s = act-Keeps λ _ t r inv. (tt, release_all-Keeps ps _)

  pub if-Keeps :
      {A : Type 0} {x y : Tm A} {Q : A → State → Type 0} {s : State} (b : Bool)
      → Keeps x Q s
      → Keeps y Q s
      → Keeps (if b then x else y) Q s
  if-Keeps true h g = h
  if-Keeps false h g = g

  pub lock-Keeps : (l : ℕ) (s : State) → Keeps (lock l) Always s
  unfolding lock exec
  lock-Keeps l s = act-Keeps λ _ t r inv. (
    tt,
    act-Keeps λ _ u q _. (
      (
        omega (arith, locked_version (t.locks l), q, inv.behind l),
        locked-lt (t.locks l) (inv.fits l),
      ),
      done,
    ),
  )

  pub unlock-Keeps : (l : ℕ) (s : State) → Keeps (unlock l) Always s
  unfolding unlock exec
  unlock-Keeps l s = act-Keeps λ _ t r inv. (
    tt,
    act-Keeps λ _ u q _. (
      (omega (arith, unlocked_word-le (t.locks l), q, inv.behind l), unlocked-lt (t.locks l)),
      done,
    ),
  )

  pub get_version-Keeps : (l : ℕ) (s : State) → Keeps (get_version l) Always s
  unfolding get_version
  get_version-Keeps l s = act-Keeps λ _ t r inv. (tt, done)

  pub is_locked-Keeps : (l : ℕ) (s : State) → Keeps (is_locked l) Always s
  unfolding is_locked
  is_locked-Keeps l s = act-Keeps λ _ t r inv. (tt, done)

  pub set_version-Keeps : (l v : ℕ) (s : State) → v ≤ s.gvc → Keeps (set_version l v) Always s
  unfolding set_version
  set_version-Keeps l v s h =
      act-Keeps λ _ t r inv. ((omega (arith, version_word-le v), version_word-lt v), done)

  -- What follows an access that may have deleted the transaction.
  pub Option-Keeps :
      {A B : Type 0} {x : Tm B} {f : A → Tm B} {s : State} (o : Option A)
      → Keeps x Always s
      → ((a : A) → Keeps (f a) Always s)
      → Keeps (elim o [ none ↦ x | some a ↦ f a ]) Always s
  Option-Keeps none h g = h
  Option-Keeps (some a) h g = g a

  pub Bool-Keeps :
      {A : Type 0} {x y : Tm A} {Q : A → State → Type 0} {s : State} (b : Bool)
      → Keeps x Q s
      → Keeps y Q s
      → Keeps (elim b [ true ↦ x | false ↦ y ]) Q s
  Bool-Keeps true h g = h
  Bool-Keeps false h g = g
