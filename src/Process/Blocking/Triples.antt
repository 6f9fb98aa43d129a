-- ===== src/Process/Blocking/Triples.antt =====
-- What a part of a thread makes of what the thread knows, for parts that follow one another.
use performant_transactional.Base.{ℕ, suc}
use performant_transactional.Process.{Prog, ret, act, ◌>>=◌, ◌>>◌}
use performant_transactional.Process.Rely.{Contract}
use performant_transactional.Process.Blocking.{Blocking, Owes, Owes-map, Meets, Meets-bind}

module _ {Act : Type 0} {Res : Act → Type 0} {S : Type 0} (exec : ℕ → Blocking Act Res S)
    (C : Contract S) where
  open C use {Inv, Rely, rely_refl}

  -- The other threads do not make it false.
  unfoldable pub IsKept : ℕ → (S → Type 0) → Type 0
  IsKept i K = (s t : S) → Rely i s t → K s → K t

  -- From `K` on, the part keeps the contract and ends with `L`.
  unfoldable pub Triple : {A : Type 0} → ℕ → (S → Type 0) → Prog Act Res A → (S → Type 0) → Type 0
  Triple i K p L = (s : S) → K s → Meets exec C i p (λ _. L) s

  pub ret-Triple : {A : Type 0} (i : ℕ) (K : S → Type 0) (a : A) → IsKept i K → Triple i K (ret a) K
  unfolding IsKept Triple
  ret-Triple i K a kept s k = λ t p. kept s t p k

  pub act-Triple :
      (i : ℕ) (a : Act) (K L : S → Type 0)
      → IsKept i K
      → IsKept i L
      → ((n : ℕ) (s : S) → K s → Inv (suc n) s → Owes exec C i n s (λ _ u. L u) (exec i a s))
      → Triple i K (act a ret) L
  unfolding IsKept Triple
  act-Triple i a K L kept kept' step s k = λ n t p inv.
      Owes-map exec C i n t (λ _ u. L u) (λ r u. Meets exec C i (ret r) (λ _. L) u) (exec i a t)
        (λ _ u l v q. kept' u v q l) (step n t (kept s t p k) inv)

  pub bind-Triple :
      {A B : Type 0} (i : ℕ) (K L M : S → Type 0) (p : Prog Act Res A) (f : A → Prog Act Res B)
      → Triple i K p L
      → ((a : A) → Triple i L (f a) M)
      → Triple i K (p >>= f) M
  unfolding Triple
  bind-Triple i K L M p f h g s k =
      Meets-bind exec C i p f (λ _. L) (λ _. M) s (h s k) (λ a t l. g a t l)

  pub then-Triple :
      {A B : Type 0} (i : ℕ) (K L M : S → Type 0) (p : Prog Act Res A) (q : Prog Act Res B)
      → Triple i K p L
      → Triple i L q M
      → Triple i K (p >> q) M
  then-Triple i K L M p q h g = bind-Triple i K L M p (λ _. q) h (λ _. g)
