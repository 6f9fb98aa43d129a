-- ===== src/Process.antt =====
-- Programs over atomic actions: how the threads of the C++ code meet shared memory.
-- A thread is a `Prog`, a tree of atomic actions and of what it does with each answer. It is run
-- alone by `run`, and beside other threads, in any order of turns, by `interleave`.
pub mod Rely
pub mod Turns
pub mod Totals
pub mod Blocking
use performant_transactional.Base.{
  ℕ, ◌≡◌, ◌≢◌, refl, ==_iff, arith, Bool, true, false, List, [], ◌∷◌, ◌==◌, if◌then◌else◌,
}

-- An action `a` is answered by a value of `Res a`.
pub data Prog (Act : Type 0) (Res : Act → Type 0) (A : Type 0) : Type 0 where
  ret : A → Prog Act Res A
  act : (a : Act) → (Res a → Prog Act Res A) → Prog Act Res A

module _ {Act : Type 0} {Res : Act → Type 0} where
  infixl 5 ◌>>=◌ ◌>>◌
  abbrev pub ◌>>=◌ : {A B : Type 0} → Prog Act Res A → (A → Prog Act Res B) → Prog Act Res B
  ret a >>= f = f a
  act a k >>= f = act a (λ r. k r >>= f)

  abbrev pub ◌>>◌ : {A B : Type 0} → Prog Act Res A → Prog Act Res B → Prog Act Res B
  m >> n = m >>= λ _. n

-- What an action answers in a state, and the state that it leaves.
abbrev pub Semantics : (Act : Type 0) → (Act → Type 0) → Type 0 → Type 0
Semantics Act Res S = (a : Act) → S → Res a × S

module _ {Act : Type 0} {Res : Act → Type 0} {S : Type 0} (exec : Semantics Act Res S) where
  -- The thread runs to its end with no other thread in between.
  abbrev pub run : {A : Type 0} → Prog Act Res A → S → A × S
  run (ret a) s = (a, s)
  run (act a k) s = run (k (exec a s).0) (exec a s).1

  -- The first action of a thread: what is left of the thread, and the new state.
  abbrev pub advance : {A : Type 0} → Prog Act Res A → S → Prog Act Res A × S
  advance (ret a) s = (ret a, s)
  advance (act a k) s = (k (exec a s).0, (exec a s).1)

-- Threads by number over one shared state.
pub record System (Act : Type 0) (Res : Act → Type 0) (S A : Type 0) : Type 0 where
  pub shared : S
  pub threads : ℕ → Prog Act Res A

abbrev pub update {ℓ} : {A : Type ℓ} → (ℕ → A) → ℕ → A → ℕ → A
update f i a j = if i == j then a else f j

pub update_own {ℓ} : {A : Type ℓ} (f : ℕ → A) (i : ℕ) (v : A) → update f i v i ≡ v
update_own f i v = rw ((==_iff i i).1 refl) refl

pub update_else {ℓ} : {A : Type ℓ} (f : ℕ → A) (i j : ℕ) (v : A) → i ≢ j → update f i v j ≡ f j
update_else f i j v h = rw (differ i j h) refl
  where
    differ : (a b : ℕ) → a ≢ b → (a == b) ≡ false
    differ a b g = ground arith

module _ {Act : Type 0} {Res : Act → Type 0} {S A : Type 0} (exec : ℕ → Semantics Act Res S) where
  -- Thread `i` makes one action; a thread that has returned stays as it is.
  unfoldable pub turn : ℕ → System Act Res S A → System Act Res S A
  turn i y =
      let (p, s) = advance (exec i) (y.threads i) y.shared in
      record { shared = s; threads = update y.threads i p }

  -- The scheduler's choice is the list of the threads in the order of their turns.
  unfoldable pub interleave : List ℕ → System Act Res S A → System Act Res S A
  unfolding turn
  interleave [] y = y
  interleave (i ∷ is) y = interleave is (turn i y)
