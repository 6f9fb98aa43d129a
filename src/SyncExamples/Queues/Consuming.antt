-- ===== src/SyncExamples/Queues/Consuming.antt =====
-- The consumer of procon2.c and procon3.c of sync-examples/, while the producer takes its turns.
use performant_transactional.Base.{
  ℕ, ◌+◌, ◌%◌, ◌<◌, ◌≤◌, ◌^◌, Bool, true, false, none, ◌≡◌, ◌≢◌, refl, sym, ap, ◌∙◌, inl, inr, ◌==◌,
  ==_iff, Bool-cases, ltb, arith,
}
use performant_transactional.Process.{ret, act, ◌>>◌}
use performant_transactional.Process.Blocking.Triples.{IsKept, Triple, act-Triple, then-Triple}
use performant_transactional.SyncExamples.Queues.{
  Shared, fetch, await_data, acquire_data, add_consumed, release, put, exec, int_mod, has_data,
  each, rounds, Thread, consume_locked, consume_atomic,
}
use performant_transactional.SyncExamples.Queues.Contract.{
  put_own, put_row, put_else, Agree, Handed, to_producer, handing, wait-Owes, take-Owes,
  relock-Handed, relock-Respects,
}
use performant_transactional.SyncExamples.Queues.Loops.{each-Triple, rounds-Triple}

-- Between two rounds, with the data of round `r` announced, and with the first `i` characters copied.
unfoldable pub IsDue : ℕ → Shared → Type 0
IsDue r s = s.consumed_until ≡ r

unfoldable pub HasData : ℕ → Shared → Type 0
HasData r s = (s.consumed_until ≡ r) × (r < s.produced_until)

module _ (text : ℕ) where
  unfoldable pub IsFetched : ℕ → ℕ → Shared → Type 0
  IsFetched r i s = HasData r s × ((j : ℕ) → j < i → j < text → s.consumed r j ≡ s.produced r j)

module _ (size text runs : ℕ) (spins : Bool) (rand : ℕ → ℕ → ℕ) (fits : runs + size < 2 ^ 31) where
  abbrev Part : (Shared → Type 0) → Thread → (Shared → Type 0) → Type 0
  Part K p L = Triple (exec size rand) (handing size text runs spins) 1 K p L

  abbrev Kept : (Shared → Type 0) → Type 0
  Kept K = IsKept (exec size rand) (handing size text runs spins) 1 K

  IsDue-IsKept : (r : ℕ) → Kept (IsDue r)
  unfolding IsKept IsDue
  IsDue-IsKept r s t p k = p.1 ∙ k

  HasData-IsKept : (r : ℕ) → Kept (HasData r)
  unfolding IsKept HasData
  HasData-IsKept r s t p k = (p.1 ∙ k.0, omega (arith, p.2, k.1))

  IsFetched-IsKept : (r i : ℕ) → Kept (IsFetched text r i)
  unfolding IsFetched IsKept HasData
  IsFetched-IsKept r i s t p k = (
    HasData-IsKept r s t p k.0,
    λ j h g. ap (λ b. b r j) p.0 ∙ k.1 j h g ∙ sym (ap (λ b. b j) (p.3 r k.0.1)),
  )

  data-HasData : (r : ℕ) (s : Shared) → IsDue r s → has_data size rand r s ≡ true → HasData r s
  unfolding HasData IsDue
  data-HasData r s k e = (k, ground arith)

  data-Stuck :
      (r : ℕ) (s : Shared)
      → r < runs
      → IsDue r s
      → has_data size rand r s ≡ false
      → (s.produced_until ≤ s.consumed_until) × (s.consumed_until < runs)
  unfolding IsDue
  data-Stuck r s l k e = (tested s.consumed_until s.produced_until k e, omega (arith, k))
    where
      tested : (c p : ℕ) → c ≡ r → ltb r p ≡ false → p ≤ c
      tested c p k e = ground arith

  await_data-Triple : (r : ℕ) → r < runs → Part (IsDue r) (act (await_data r) ret) (HasData r)
  unfolding exec
  await_data-Triple r l =
      act-Triple (exec size rand) (handing size text runs spins) 1 (await_data r) (IsDue r)
        (HasData r) (IsDue-IsKept r) (HasData-IsKept r)
        (λ n s k inv.
          wait-Owes size text runs spins rand 1 n s (HasData r) (has_data size rand r s) inv
            (data-HasData r s k) (data-Stuck r s l k))

  release-Triple : (r : ℕ) → Part (IsDue r) (act release ret) (IsDue r)
  unfolding exec IsDue
  release-Triple r =
      act-Triple (exec size rand) (handing size text runs spins) 1 release (IsDue r) (IsDue r)
        (IsDue-IsKept r) (IsDue-IsKept r)
        (λ n s k inv. (relock-Handed size text runs s none inv, λ j d. relock-Respects s none j, k))

  -- What was consumed in earlier rounds is not touched.
  fetch-Handed :
      (s : Shared) (r i v : ℕ)
      → HasData r s
      → Handed size text runs s
      → Handed size text runs (record s { consumed = put s.consumed r i v })
  unfolding HasData
  fetch-Handed s r i v k inv = record {
    in_order = inv.in_order;
    bounded = inv.bounded;
    waiting = inv.waiting;
    handed = λ q h.
        rw
          (ap (λ a. Agree text a (s.produced q))
            (put_row s.consumed r i v q (λ e. absurd (omega (arith, k.0, e, h)))))
          (inv.handed q h);
  }

  fetch-Agree :
      (f : ℕ → ℕ → ℕ) (a : ℕ → ℕ) (r i v : ℕ)
      → (i < text → v ≡ a i)
      → ((j : ℕ) → j < i → j < text → f r j ≡ a j)
      → (j : ℕ) → j < i + 1
      → j < text
      → put f r i v r j ≡ a j
  fetch-Agree f a r i v e h j l g = elim (Bool-cases (i == j)) [
    | inl d ↦ let same = (==_iff i j).0 d in rw (← same) (put_own f r i v ∙ e (below_text i j d g))
    | inr d ↦ put_else f r i v j (apart i j d) ∙ h j (below i j d l) g
  ]
    where
      apart : (i j : ℕ) → (i == j) ≡ false → i ≢ j
      apart i j e k = ground arith

      below : (i j : ℕ) → (i == j) ≡ false → j < i + 1 → j < i
      below i j e k = ground arith

      below_text : (i j : ℕ) → (i == j) ≡ true → j < text → i < text
      below_text i j e k = ground arith

  fetch-Triple :
      (r i : ℕ) → Part (IsFetched text r i) (act (fetch r i) ret) (IsFetched text r (i + 1))
  unfolding exec IsFetched HasData Agree
  fetch-Triple r i =
      act-Triple (exec size rand) (handing size text runs spins) 1 (fetch r i) (IsFetched text r i)
        (IsFetched text r (i + 1)) (IsFetched-IsKept r i) (IsFetched-IsKept r (i + 1))
        (λ n s k inv. (
          fetch-Handed s r i (s.buffer (r % size) i) k.0 inv,
          to_producer s _ (refl, refl, refl, omega arith),
          (
            k.0,
            fetch-Agree s.consumed (s.produced r) r i (s.buffer (r % size) i)
                (λ l. inv.waiting r (omega (arith, k.0.0)) k.0.1 i l) k.1,
          ),
        ))

  add_consumed-Handed :
      (s : Shared) (r : ℕ)
      → IsFetched text r text s
      → Handed size text runs s
      → Handed size text runs (record s { consumed_until = (s.consumed_until + 1) % int_mod })
        × ((s.consumed_until + 1) % int_mod ≡ r + 1)
  unfolding IsFetched HasData Agree
  add_consumed-Handed s r k inv =
      let bound = inv.bounded in
      let next = counted s.consumed_until s.produced_until k.0.0 k.0.1 bound in
      (
        record {
          in_order = rw next (omega (arith, k.0.1));
          bounded = inv.bounded;
          waiting = λ q h g. inv.waiting q (later s.consumed_until q k.0.0 (rw next at h)) g;
          handed = λ q h. elim (Bool-cases (r == q)) [
            | inl e ↦ let same = (==_iff r q).0 e in rw (← same) (λ j l. k.1 j l l)
            | inr e ↦ inv.handed q (before s.consumed_until q k.0.0 e (rw next at h))
          ];
        },
        next,
      )
    where
      counted : (c p : ℕ) → c ≡ r → r < p → p ≤ runs → (c + 1) % int_mod ≡ r + 1
      counted c p e h g = omega arith

      later : (c q : ℕ) → c ≡ r → r + 1 ≤ q → c ≤ q
      later c q e h = omega arith

      before : (c q : ℕ) → c ≡ r → (r == q) ≡ false → q < r + 1 → q < c
      before c q e g h = ground arith

  add_consumed-Triple :
      (r : ℕ) → Part (IsFetched text r text) (act add_consumed ret) (IsDue (r + 1))
  unfolding exec IsFetched HasData IsDue
  add_consumed-Triple r =
      act-Triple (exec size rand) (handing size text runs spins) 1 add_consumed
        (IsFetched text r text) (IsDue (r + 1)) (IsFetched-IsKept r text) (IsDue-IsKept (r + 1))
        (λ n s k inv.
          let (after, next) = add_consumed-Handed s r k inv in
          (after, to_producer s _ (refl, refl, refl, more s.consumed_until k.0.0 next), next))
    where
      more : (c : ℕ) → c ≡ r → (c + 1) % int_mod ≡ r + 1 → c ≤ (c + 1) % int_mod
      more c e h = omega arith

  fetches-Triple : (r : ℕ) → Part (HasData r) (each (fetch r) 0 text) (IsFetched text r text)
  unfolding IsFetched Triple
  fetches-Triple r = λ s k.
      (rw (all text) at (
          each-Triple size text runs spins rand 1 (IsFetched text r) (IsFetched-IsKept r) (fetch r)
            (fetch-Triple r) text 0))
        s (k, λ j h g. absurd (omega arith))
    where
      all : (n : ℕ) → 0 + n ≡ n
      all n = omega arith

  next_part : (K L M : Shared → Type 0) (p q : Thread) → Part K p L → Part L q M → Part K (p >> q) M
  next_part K L M p q a b =
      then-Triple (exec size rand) (handing size text runs spins) 1 K L M p q a b

  -- A round of procon3.c
  pub consume_atomic-Triple :
      (r : ℕ) → r < runs → Part (IsDue r) (consume_atomic text r) (IsDue (r + 1))
  consume_atomic-Triple r l =
      next_part (IsDue r) (HasData r) (IsDue (r + 1)) (act (await_data r) ret) _
        (await_data-Triple r l)
        (next_part (HasData r) (IsFetched text r text) (IsDue (r + 1)) (each (fetch r) 0 text) _
          (fetches-Triple r) (add_consumed-Triple r))

  pub consumer-Triple :
      (body : ℕ → Thread)
      → ((r : ℕ) → r < runs → Part (IsDue r) (body r) (IsDue (r + 1)))
      → Part (IsDue 0) (rounds body 0 runs) (IsDue (0 + runs))
  consumer-Triple body one =
      rounds-Triple size text runs spins rand 1 IsDue IsDue-IsKept body one runs 0 (omega arith)

-- The lock that the consumer of procon2.c takes is no part of what it knows.
module _ (size text runs : ℕ) (rand : ℕ → ℕ → ℕ) (fits : runs + size < 2 ^ 31) where
  acquire_data-Triple :
      (r : ℕ) → Part size text runs false rand fits (IsDue r) (act (acquire_data r) ret) (HasData r)
  unfolding exec HasData
  acquire_data-Triple r =
      act-Triple (exec size rand) (handing size text runs false) 1 (acquire_data r) (IsDue r)
        (HasData r) (IsDue-IsKept size text runs false rand fits r)
        (HasData-IsKept size text runs false rand fits r)
        (λ n s k inv.
          take-Owes size text runs rand 1 n s (HasData r) (has_data size rand r s) s.holder inv
            (data-HasData size text runs false rand fits r s k))

  -- A round of procon2.c
  pub consume_locked-Triple :
      (r : ℕ)
      → Part size text runs false rand fits (IsDue r) (consume_locked text r) (IsDue (r + 1))
  consume_locked-Triple r =
      next_part size text runs false rand fits (IsDue r) (HasData r) (IsDue (r + 1))
        (act (acquire_data r) ret) _ (acquire_data-Triple r)
        (next_part size text runs false rand fits (HasData r) (IsFetched text r text)
          (IsDue (r + 1)) (each (fetch r) 0 text) _
          (fetches-Triple size text runs false rand fits r)
          (next_part size text runs false rand fits (IsFetched text r text) (IsDue (r + 1))
            (IsDue (r + 1)) (act add_consumed ret) _
            (add_consumed-Triple size text runs false rand fits r)
            (release-Triple size text runs false rand fits (r + 1))))
