-- ===== src/Process/Blocking.antt =====
-- Threads whose actions may have to wait: a lock that is taken, a test in a waiting loop. The turn of
-- a thread that waits changes nothing; it is one more round of its loop.
pub mod Turns
pub mod Triples
pub mod Progress
pub mod Alone
use performant_transactional.Base.{
  ℕ, suc, Option, none, some, List, [], ◌∷◌, ◌≡◌, ◌≢◌, inl, inr, ◌==◌, ==_iff, Bool-cases, arith,
  length,
}
use performant_transactional.Process.{Prog, ret, act, ◌>>=◌, System, update}
use performant_transactional.Process.Rely.{Contract}

-- What an action answers and leaves, or `none` while it waits.
abbrev pub Blocking : (Act : Type 0) → (Act → Type 0) → Type 0 → Type 0
Blocking Act Res S = (a : Act) → S → Option (Res a × S)

-- A thread goes on after an action that did not wait.
abbrev pub go_on :
    {Act : Type 0} {Res : Act → Type 0} {S A : Type 0} (a : Act)
    → (Res a → Prog Act Res A)
    → S
    → Option (Res a × S)
    → Prog Act Res A × S
go_on a k s none = (act a k, s)
go_on a k s (some (r, t)) = (k r, t)

module _ {Act : Type 0} {Res : Act → Type 0} {S A : Type 0} (exec : ℕ → Blocking Act Res S) where
  -- The first action of thread `i`.
  abbrev pub attempt : ℕ → Prog Act Res A → S → Prog Act Res A × S
  attempt i (ret a) s = (ret a, s)
  attempt i (act a k) s = go_on a k s (exec i a s)

  unfoldable pub turn : ℕ → System Act Res S A → System Act Res S A
  turn i y =
      let (p, s) = attempt i (y.threads i) y.shared in
      record { shared = s; threads = update y.threads i p }

  unfoldable pub interleave : List ℕ → System Act Res S A → System Act Res S A
  unfolding turn
  interleave [] y = y
  interleave (i ∷ is) y = interleave is (turn i y)

module _ {Act : Type 0} {Res : Act → Type 0} {S : Type 0} (exec : ℕ → Blocking Act Res S)
    (C : Contract S) where
  open C use {Inv, Rely, Stuck, idle, rely_refl, rely_trans}

  -- What thread `i` owes after an action in state `t`: what it waits for
  -- otherwise.
  abbrev pub Owes : {B : Type 0} → ℕ → ℕ → S → (B → S → Type 0) → Option (B × S) → Type 0
  Owes i n t next none = Stuck i t
  Owes i n t next (some (r, u)) = Inv n u × ((j : ℕ) → i ≢ j → Rely j t u) × next r u

  -- As `Rely.Meets`, for the actions that do not wait.
  abbrev pub Meets : {A : Type 0} → ℕ → Prog Act Res A → (A → S → Type 0) → S → Type 0
  Meets i (ret a) Q s = (t : S) → Rely i s t → Q a t
  Meets i (act a k) Q s =
      (n : ℕ) (t : S)
      → Rely i s t
      → Inv (suc n) t
      → Owes i n t (λ r u. Meets i (k r) Q u) (exec i a t)

  pub Owes-map :
      {R : Type 0} (i n : ℕ) (t : S) (P P' : R → S → Type 0) (o : Option (R × S))
      → ((r : R) (u : S) → P r u → P' r u)
      → Owes i n t P o
      → Owes i n t P' o
  Owes-map i n t P P' none h o = o
  Owes-map i n t P P' (some (r, u)) h o = (o.0, o.1, h r u o.2)

  pub Meets-bind :
      {A B : Type 0} (i : ℕ) (m : Prog Act Res A) (f : A → Prog Act Res B) (Q : A → S → Type 0)
      (Q' : B → S → Type 0) (s : S)
      → Meets i m Q s
      → ((a : A) (t : S) → Q a t → Meets i (f a) Q' t)
      → Meets i (m >>= f) Q' s
  Meets-bind i (ret a) f Q Q' s h next = next a s (h s (rely_refl i s))
  Meets-bind i (act a k) f Q Q' s h next = λ n t r inv.
      Owes-map i n t (λ b u. Meets i (k b) Q u) (λ b u. Meets i (k b >>= f) Q' u) (exec i a t)
        (λ b u m. Meets-bind i (k b) f Q Q' u m next) (h n t r inv)

  pub Meets-map :
      {A : Type 0} (i : ℕ) (m : Prog Act Res A) (Q Q' : A → S → Type 0) (s : S)
      → ((a : A) (t : S) → Q a t → Q' a t)
      → Meets i m Q s
      → Meets i m Q' s
  Meets-map i (ret a) Q Q' s f h = λ t r. f a t (h t r)
  Meets-map i (act a k) Q Q' s f h = λ n t r inv.
      Owes-map i n t (λ b u. Meets i (k b) Q u) (λ b u. Meets i (k b) Q' u) (exec i a t)
        (λ b u m. Meets-map i (k b) Q Q' u f m) (h n t r inv)

  pub record IsSound {A : Type 0} (Post : ℕ → A → S → Type 0) (n : ℕ) (y : System Act Res S A)
      : Type 0 where
    pub inv : Inv n y.shared
    pub last : ℕ → S
    pub relied : (i : ℕ) → Rely i (last i) y.shared
    pub valid : (i : ℕ) → Meets i (y.threads i) (Post i) (last i)

  module _ {A : Type 0} (Post : ℕ → A → S → Type 0) where
    -- After a turn: the invariant, what the others rely on, and what the thread still has to do.
    Kept : ℕ → ℕ → S → Prog Act Res A × S → Type 0
    Kept n i t (p, u) = Inv n u × ((j : ℕ) → i ≢ j → Rely j t u) × Meets i p (Post i) u

    go_on-Kept :
        (n i : ℕ) (t : S) (a : Act) (k : Res a → Prog Act Res A) (o : Option (Res a × S))
        → Inv (suc n) t
        → Meets i (act a k) (Post i) t
        → Owes i n t (λ r u. Meets i (k r) (Post i) u) o
        → Kept n i t (go_on a k t o)
    unfolding Kept
    go_on-Kept n i t a k none inv m o = (idle n t inv, λ j _. rely_refl j t, m)
    go_on-Kept n i t a k (some (r, u)) inv m o = o

    attempt-Kept :
        (n i : ℕ) (p : Prog Act Res A) (s t : S)
        → Rely i s t
        → Inv (suc n) t
        → Meets i p (Post i) s
        → Kept n i t (attempt exec i p t)
    unfolding Kept
    attempt-Kept n i (ret a) s t r inv v =
        (idle n t inv, λ j _. rely_refl j t, λ u q. v u (rely_trans i s t u r q))
    attempt-Kept n i (act a k) s t r inv v =
        go_on-Kept n i t a k (exec i a t) inv (λ m u q inv'. v m u (rely_trans i s t u r q) inv')
          (v n t r inv)

    pub turn-IsSound :
        (n i : ℕ) (y : System Act Res S A) → IsSound Post (suc n) y → IsSound Post n (turn exec i y)
    unfolding turn Kept
    turn-IsSound n i y sound = record {
      inv = moved.0;
      last = update sound.last i s;
      relied = λ j. elim (Bool-cases (i == j)) [
        | inl e ↦ rw e (rely_refl j s)
        | inr e ↦
            rw e
              (rely_trans j (sound.last j) y.shared s (sound.relied j) (moved.1 j (ground arith)))
      ];
      valid = λ j. elim (Bool-cases (i == j)) [
        | inl e ↦ rw (e, ← (==_iff i j).0 e) moved.2
        | inr e ↦ rw e (sound.valid j)
      ];
    }
      where
        s : S
        s = (attempt exec i (y.threads i) y.shared).1

        moved : Kept n i y.shared (attempt exec i (y.threads i) y.shared)
        moved =
            attempt-Kept n i (y.threads i) (sound.last i) y.shared (sound.relied i) sound.inv
              (sound.valid i)

    pub interleave-IsSound :
        (is : List ℕ) (y : System Act Res S A)
        → IsSound Post (length is) y
        → IsSound Post 0 (interleave exec is y)
    unfolding interleave
    interleave-IsSound [] y sound = sound
    interleave-IsSound (i ∷ is) y sound =
        interleave-IsSound is (turn exec i y) (turn-IsSound (length is) i y sound)

    pub start-IsSound :
        (n : ℕ) (y : System Act Res S A)
        → Inv n y.shared
        → ((i : ℕ) → Meets i (y.threads i) (Post i) y.shared)
        → IsSound Post n y
    start-IsSound n y inv v = record {
      inv = inv;
      last = λ _. y.shared;
      relied = λ i. rely_refl i y.shared;
      valid = v;
    }

    pub Post-returned :
        (n i : ℕ) (a : A) (y : System Act Res S A)
        → IsSound Post n y
        → y.threads i ≡ ret a
        → Post i a y.shared
    Post-returned n i a y sound e = (rw e at (sound.valid i)) y.shared (sound.relied i)
