-- ===== src/SyncExamples/Queues/Producing.antt =====
-- The actions of the producer of procon2.c and procon3.c of sync-examples/, while the consumer takes
-- its turns.
pub mod Rounds
use performant_transactional.Base.{
  ℕ, zero, suc, ◌+◌, ◌%◌, ◌<◌, ◌≤◌, ◌^◌, Bool, true, false, Option, none, some, ◌≡◌, ◌≢◌, ◌⊎◌, refl,
  sym, ap, ◌∙◌, inl, inr, ◌==◌, ==_iff, ltb, Bool-cases, Option-cases, arith,
}
use performant_transactional.Process.{ret, act, ◌>>=◌, ◌>>◌}
use performant_transactional.Process.Blocking.{Owes}
use performant_transactional.Process.Blocking.Triples.{
  IsKept, Triple, ret-Triple, act-Triple, bind-Triple,
}
use performant_transactional.SyncExamples.Queues.{
  Shared, draw, fill, await_room, acquire_room, add_produced, release, put, exec, int_mod, has_room,
  wait, take, each, rounds, Thread, write_data, produce_locked, produce_atomic,
}
use performant_transactional.SyncExamples.Queues.Contract.{
  slots_apart, put_own, put_row, put_else, lt_le_trans, Agree, Handed, Respects, to_consumer,
  handing, wait-Owes, take-Owes, relock-Handed, relock-Respects,
}

-- Between two rounds, with room for the data of round `r`, and with the first `i` characters copied.
unfoldable pub IsReady : ℕ → Shared → Type 0
IsReady r s = s.produced_until ≡ r

module _ (size : ℕ) where
  unfoldable pub HasRoom : ℕ → Shared → Type 0
  HasRoom r s = (s.produced_until ≡ r) × (r < s.consumed_until + size)

  unfoldable pub IsFilled : ℕ → ℕ → Shared → Type 0
  IsFilled r i s = HasRoom r s × Agree i (s.buffer (r % size)) (s.produced r)

module _ (size text runs : ℕ) (spins : Bool) (rand : ℕ → ℕ → ℕ) (fits : runs + size < 2 ^ 31) where
  abbrev pub Part : (Shared → Type 0) → Thread → (Shared → Type 0) → Type 0
  Part K p L = Triple (exec size rand) (handing size text runs spins) 0 K p L

  abbrev pub Kept : (Shared → Type 0) → Type 0
  Kept K = IsKept (exec size rand) (handing size text runs spins) 0 K

  pub IsReady-IsKept : (r : ℕ) → Kept (IsReady r)
  unfolding IsKept IsReady
  IsReady-IsKept r s t p k = p.2 ∙ k

  pub HasRoom-IsKept : (r : ℕ) → Kept (HasRoom size r)
  unfolding IsKept HasRoom
  HasRoom-IsKept r s t p k = (p.2 ∙ k.0, omega (arith, p.3, k.1))

  pub IsFilled-IsKept : (r i : ℕ) → Kept (IsFilled size r i)
  unfolding IsFilled Agree IsKept
  IsFilled-IsKept r i s t p k = (
    HasRoom-IsKept r s t p k.0,
    λ j h. ap (λ b. b (r % size) j) p.1 ∙ k.1 j h ∙ sym (ap (λ b. b r j) p.0),
  )

  -- What the test says.
  pub room-HasRoom :
      (r : ℕ) (s : Shared)
      → Handed size text runs s
      → IsReady r s
      → has_room size rand r s ≡ true
      → HasRoom size r s
  unfolding HasRoom IsReady
  room-HasRoom r s inv k e =
      let few = inv.in_order in let bound = inv.bounded in (k, tested s.consumed_until few bound e)
    where
      tested :
          (c : ℕ)
          → c ≤ s.produced_until
          → s.produced_until ≤ runs
          → ltb r ((c + size) % int_mod) ≡ true
          → r < c + size
      tested c h g e = ground arith

  room-Stuck :
      (r : ℕ) (s : Shared)
      → Handed size text runs s
      → IsReady r s
      → has_room size rand r s ≡ false
      → s.consumed_until + size ≤ s.produced_until
  unfolding IsReady
  room-Stuck r s inv k e =
      let few = inv.in_order in
      let bound = inv.bounded in tested s.consumed_until s.produced_until few bound k e
    where
      tested :
          (c p : ℕ) → c ≤ p → p ≤ runs → p ≡ r → ltb r ((c + size) % int_mod) ≡ false → c + size ≤ p
      tested c p h g k e = ground arith

  pub await_room-Triple : (r : ℕ) → Part (IsReady r) (act (await_room r) ret) (HasRoom size r)
  unfolding exec
  await_room-Triple r =
      act-Triple (exec size rand) (handing size text runs spins) 0 (await_room r) (IsReady r)
        (HasRoom size r) (IsReady-IsKept r) (HasRoom-IsKept r)
        (λ n s k inv.
          wait-Owes size text runs spins rand 0 n s (HasRoom size r) (has_room size rand r s) inv
            (room-HasRoom r s inv k) (room-Stuck r s inv k))

  -- What is announced is not drawn again.
  put_announced :
      (s : Shared) (r i v k : ℕ)
      → HasRoom size r s
      → k < s.produced_until
      → put s.produced r i v k ≡ s.produced k
  unfolding HasRoom
  put_announced s r i v k room l =
      put_row s.produced r i v k (λ e. absurd (omega (arith, room.0, e, l)))

  draw-Handed :
      (s : Shared) (r i v : ℕ)
      → HasRoom size r s
      → Handed size text runs s
      → Handed size text runs (record s { produced = put s.produced r i v })
  draw-Handed s r i v room inv = record {
    in_order = inv.in_order;
    bounded = inv.bounded;
    waiting = λ k h g.
        rw (ap (Agree text (s.buffer (k % size))) (put_announced s r i v k room g))
          (inv.waiting k h g);
    handed = λ k h.
        rw
          (ap (Agree text (s.consumed k))
            (put_announced s r i v k room (lt_le_trans _ _ _ h inv.in_order)))
          (inv.handed k h);
  }

  pub draw-Triple : (r i : ℕ) → Part (HasRoom size r) (act (draw r i) ret) (HasRoom size r)
  unfolding exec HasRoom
  draw-Triple r i =
      act-Triple (exec size rand) (handing size text runs spins) 0 (draw r i) (HasRoom size r)
        (HasRoom size r) (HasRoom-IsKept r) (HasRoom-IsKept r)
        (λ n s k inv. (
          draw-Handed s r i (rand r i) k inv,
          to_consumer s _ (refl, refl, omega arith, λ k' h. put_announced s r i (rand r i) k' k h),
          k,
        ))

  -- The slot that is filled holds nothing that waits.
  fill-Handed :
      (s : Shared) (r i v : ℕ)
      → HasRoom size r s
      → Handed size text runs s
      → Handed size text runs (record s { buffer = put s.buffer (r % size) i v })
  unfolding HasRoom
  fill-Handed s r i v room inv = record {
    in_order = inv.in_order;
    bounded = inv.bounded;
    waiting = λ k h g.
        rw
          (ap (λ a. Agree text a (s.produced k))
            (put_row s.buffer (r % size) i v (k % size) (λ e.
              slots_apart size k r (omega (arith, room.0, g)) (omega (arith, room.1, h)) (sym e))))
          (inv.waiting k h g);
    handed = inv.handed;
  }

  -- One more character is copied.
  fill-Agree :
      (f : ℕ → ℕ → ℕ) (a : ℕ → ℕ) (r i : ℕ) → Agree i (f r) a → Agree (i + 1) (put f r i (a i) r) a
  unfolding Agree
  fill-Agree f a r i h j l = elim (Bool-cases (i == j)) [
    | inl e ↦ let same = (==_iff i j).0 e in rw same (put_own f r j (a j))
    | inr e ↦ put_else f r i (a i) j (apart i j e) ∙ h j (below i j e l)
  ]
    where
      apart : (i j : ℕ) → (i == j) ≡ false → i ≢ j
      apart i j e k = ground arith

      below : (i j : ℕ) → (i == j) ≡ false → j < i + 1 → j < i
      below i j e k = ground arith

  pub fill-Triple :
      (r i : ℕ) → Part (IsFilled size r i) (act (fill r i) ret) (IsFilled size r (i + 1))
  unfolding exec IsFilled HasRoom
  fill-Triple r i =
      act-Triple (exec size rand) (handing size text runs spins) 0 (fill r i) (IsFilled size r i)
        (IsFilled size r (i + 1)) (IsFilled-IsKept r i) (IsFilled-IsKept r (i + 1))
        (λ n s k inv. (
          fill-Handed s r i (s.produced r i) k.0 inv,
          to_consumer s _ (refl, refl, omega arith, λ k' h. refl),
          (k.0, fill-Agree s.buffer (s.produced r) (r % size) i k.1),
        ))

  add_produced-Handed :
      (s : Shared) (r : ℕ)
      → r < runs
      → IsFilled size r text s
      → Handed size text runs s
      → Handed size text runs (record s { produced_until = (s.produced_until + 1) % int_mod })
  unfolding IsFilled HasRoom
  add_produced-Handed s r l k inv =
      let order = inv.in_order in
      let next = counted s.produced_until k.0.0 in
      record {
        in_order = rw next (omega (arith, order, k.0.0));
        bounded = rw next (omega (arith, l));
        waiting = λ q h g. elim (Bool-cases (r == q)) [
          | inl e ↦ let same = (==_iff r q).0 e in rw (← same) k.1
          | inr e ↦ inv.waiting q h (before s.produced_until q k.0.0 e (rw next at g))
        ];
        handed = inv.handed;
      }
    where
      counted : (p : ℕ) → p ≡ r → (p + 1) % int_mod ≡ r + 1
      counted p e = omega arith

      before : (p q : ℕ) → p ≡ r → (r == q) ≡ false → q < r + 1 → q < p
      before p q e g h = ground arith

  pub add_produced-Triple :
      (r : ℕ) → r < runs → Part (IsFilled size r text) (act add_produced ret) (IsReady (r + 1))
  unfolding exec IsFilled HasRoom IsReady
  add_produced-Triple r l =
      act-Triple (exec size rand) (handing size text runs spins) 0 add_produced
        (IsFilled size r text) (IsReady (r + 1)) (IsFilled-IsKept r text) (IsReady-IsKept (r + 1))
        (λ n s k inv.
          let next = counted s.produced_until k.0.0 in
          (
            add_produced-Handed s r l k inv,
            to_consumer s _ (refl, refl, more s.produced_until k.0.0, λ k' h. refl),
            next,
          ))
    where
      counted : (p : ℕ) → p ≡ r → (p + 1) % int_mod ≡ r + 1
      counted p e = omega arith

      more : (p : ℕ) → p ≡ r → p ≤ (p + 1) % int_mod
      more p e = omega arith

  pub release-Triple : (r : ℕ) → Part (IsReady r) (act release ret) (IsReady r)
  unfolding exec IsReady
  release-Triple r =
      act-Triple (exec size rand) (handing size text runs spins) 0 release (IsReady r) (IsReady r)
        (IsReady-IsKept r) (IsReady-IsKept r)
        (λ n s k inv. (relock-Handed size text runs s none inv, λ j d. relock-Respects s none j, k))

-- The lock that the producer of procon2.c takes is no part of what it knows.
module _ (size text runs : ℕ) (rand : ℕ → ℕ → ℕ) (fits : runs + size < 2 ^ 31) where
  pub acquire_room-Triple :
      (r : ℕ)
      → Part size text runs false rand fits (IsReady r) (act (acquire_room r) ret) (HasRoom size r)
  unfolding exec HasRoom
  acquire_room-Triple r =
      act-Triple (exec size rand) (handing size text runs false) 0 (acquire_room r) (IsReady r)
        (HasRoom size r) (IsReady-IsKept size text runs false rand fits r)
        (HasRoom-IsKept size text runs false rand fits r)
        (λ n s k inv.
          take-Owes size text runs rand 0 n s (HasRoom size r) (has_room size rand r s) s.holder inv
            (room-HasRoom size text runs false rand fits r s inv k))
