-- ===== src/Process/Rely.antt =====
-- Rely and guarantee: what each thread keeps by itself holds of all interleavings.
use performant_transactional.Base.{
  ℕ, suc, List, [], ◌∷◌, ◌≡◌, ◌≢◌, inl, inr, ◌==◌, ==_iff, Bool-cases, arith, length,
}
use performant_transactional.Process.{
  Prog, ret, act, ◌>>=◌, Semantics, System, advance, update, turn, interleave,
}

-- `Inv n` holds while `n` more turns are to come. Thread `i` relies on `Rely i s t` for each
-- change from `s` to `t` that the other threads make. `Stuck i s` holds where thread `i` waits, of
-- actions that may have to.
pub record Contract (S : Type 0) : Type 1 where
  pub Inv : ℕ → S → Type 0
  pub Rely : ℕ → S → S → Type 0
  pub Stuck : ℕ → S → Type 0
  pub idle : (n : ℕ) (s : S) → Inv (suc n) s → Inv n s
  pub rely_refl : (i : ℕ) (s : S) → Rely i s s
  pub rely_trans : (i : ℕ) (s t u : S) → Rely i s t → Rely i t u → Rely i s u

module _ {Act : Type 0} {Res : Act → Type 0} {S : Type 0} (exec : ℕ → Semantics Act Res S)
    (C : Contract S) where
  open C use {Inv, Rely, idle, rely_refl, rely_trans}

  -- Thread `i`, last active in state `s`, keeps the contract whatever the others do meanwhile, and
  -- returns only with `Q`.
  abbrev pub Meets : {A : Type 0} → ℕ → Prog Act Res A → (A → S → Type 0) → S → Type 0
  Meets i (ret a) Q s = (t : S) → Rely i s t → Q a t
  Meets i (act a k) Q s =
      (n : ℕ) (t : S)
      → Rely i s t
      → Inv (suc n) t
      → Inv n (exec i a t).1
        × ((j : ℕ) → i ≢ j → Rely j t (exec i a t).1)
        × Meets i (k (exec i a t).0) Q (exec i a t).1

  -- The rule for one action.
  pub Meets-act :
      {A : Type 0} (i : ℕ) (a : Act) (k : Res a → Prog Act Res A) (Q : A → S → Type 0) (s : S)
      → ((n : ℕ) (t : S)
          → Rely i s t
          → Inv (suc n) t
          → Inv n (exec i a t).1
            × ((j : ℕ) → i ≢ j → Rely j t (exec i a t).1)
            × Meets i (k (exec i a t).0) Q (exec i a t).1)
      → Meets i (act a k) Q s
  Meets-act i a k Q s h = h

  -- The rule for a sequence.
  pub Meets-bind :
      {A B : Type 0} (i : ℕ) (m : Prog Act Res A) (f : A → Prog Act Res B) (Q : A → S → Type 0)
      (Q' : B → S → Type 0) (s : S)
      → Meets i m Q s
      → ((a : A) (t : S) → Q a t → Meets i (f a) Q' t)
      → Meets i (m >>= f) Q' s
  Meets-bind i (ret a) f Q Q' s h next = next a s (h s (rely_refl i s))
  Meets-bind i (act a k) f Q Q' s h next = λ n t r inv.
      let v = h n t r inv in
      (v.0, v.1, Meets-bind i (k (exec i a t).0) f Q Q' (exec i a t).1 v.2 next)

  pub record IsSound {A : Type 0} (Post : ℕ → A → S → Type 0) (n : ℕ) (y : System Act Res S A)
      : Type 0 where
    pub inv : Inv n y.shared
    pub last : ℕ → S
    pub relied : (i : ℕ) → Rely i (last i) y.shared
    pub valid : (i : ℕ) → Meets i (y.threads i) (Post i) (last i)

  module _ {A : Type 0} (Post : ℕ → A → S → Type 0) where
    -- One action of thread `i`, taken in a state that its rely allows.
    advance-Meets :
        (n i : ℕ) (p : Prog Act Res A) (s t : S)
        → Rely i s t
        → Inv (suc n) t
        → Meets i p (Post i) s
        → Inv n (advance (exec i) p t).1
          × ((j : ℕ) → i ≢ j → Rely j t (advance (exec i) p t).1)
          × Meets i (advance (exec i) p t).0 (Post i) (advance (exec i) p t).1
    advance-Meets n i (ret a) s t r inv v =
        (idle n t inv, λ j _. rely_refl j t, λ u q. v u (rely_trans i s t u r q))
    advance-Meets n i (act a k) s t r inv v = v n t r inv

    pub turn-IsSound :
        (n i : ℕ) (y : System Act Res S A) → IsSound Post (suc n) y → IsSound Post n (turn exec i y)
    unfolding turn
    turn-IsSound n i y sound = record {
      inv = moved.0;
      last = update sound.last i s;
      relied = λ j. elim (Bool-cases (i == j)) [
        | inl e ↦ rw e (rely_refl j s)
        | inr e ↦
            rw e
              (rely_trans j (sound.last j) y.shared s (sound.relied j) (moved.1 j (ground arith)))
      ];
      valid = λ j. elim (Bool-cases (i == j)) [
        | inl e ↦ rw (e, ← (==_iff i j).0 e) moved.2
        | inr e ↦ rw e (sound.valid j)
      ];
    }
      where
        s : S
        s = (advance (exec i) (y.threads i) y.shared).1

        moved :
            Inv n s
            × ((j : ℕ) → i ≢ j → Rely j y.shared s)
            × Meets i (advance (exec i) (y.threads i) y.shared).0 (Post i) s
        moved =
            advance-Meets n i (y.threads i) (sound.last i) y.shared (sound.relied i) sound.inv
              (sound.valid i)

    -- Whatever the order of the turns, the invariant holds at the end.
    pub interleave-IsSound :
        (is : List ℕ) (y : System Act Res S A)
        → IsSound Post (length is) y
        → IsSound Post 0 (interleave exec is y)
    unfolding interleave
    interleave-IsSound [] y sound = sound
    interleave-IsSound (i ∷ is) y sound =
        interleave-IsSound is (turn exec i y) (turn-IsSound (length is) i y sound)

    pub start-IsSound :
        (n : ℕ) (y : System Act Res S A)
        → Inv n y.shared
        → ((i : ℕ) → Meets i (y.threads i) (Post i) y.shared)
        → IsSound Post n y
    start-IsSound n y inv v = record {
      inv = inv;
      last = λ _. y.shared;
      relied = λ i. rely_refl i y.shared;
      valid = v;
    }

    -- A thread that has returned is left with its postcondition.
    pub Post-returned :
        (n i : ℕ) (a : A) (y : System Act Res S A)
        → IsSound Post n y
        → y.threads i ≡ ret a
        → Post i a y.shared
    Post-returned n i a y sound e = (rw e at (sound.valid i)) y.shared (sound.relied i)
