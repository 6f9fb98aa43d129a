-- ===== src/SyncExamples/Queues/Contract.antt =====
-- What the producer and the consumer rely on.
use performant_transactional.Base.{
  ℕ, zero, suc, ◌+◌, ◌%◌, ◌<◌, ◌≤◌, Bool, true, false, Option, none, some, ◌≡◌, ◌≢◌, ◌⊎◌, ◌-◌, refl,
  sym, ap, ◌∙◌, inl, inr, arith,
}
use native.Mathlib.Nat.{mod-add-mod, mod-eq_of_lt, mod-eq-sub-mod, mod-lt}
use performant_transactional.Process.{update, update_own, update_else}
use performant_transactional.Process.Rely.{Contract}
use performant_transactional.Process.Blocking.{Owes}
use performant_transactional.SyncExamples.Queues.{Shared, put, exec, wait, take}

-- Elements of the buffer less than its size apart are different.
pub slots_apart : (size k r : ℕ) → k < r → r < k + size → k % size ≢ r % size
slots_apart size k r h g e = elim (order (k % size + (r - k)) size) [
  | inl l ↦ absurd (omega (arith, same ∙ mod-eq_of_lt l))
  | inr l ↦ absurd (omega (arith, same ∙ mod-eq-sub-mod l ∙ mod-eq_of_lt (omega (arith, small))))
]
  where
    order : (a b : ℕ) → (a < b) ⊎ (b ≤ a)
    order a b = ground arith

    back : (k r : ℕ) → k < r → k + (r - k) ≡ r
    back k r h = omega arith

    small : k % size < size
    small = mod-lt k (omega arith)

    same : k % size ≡ (k % size + (r - k)) % size
    same = e ∙ ap (λ a. a % size) (sym (back k r h)) ∙ sym (mod-add-mod k size (r - k))

pub put_own : (f : ℕ → ℕ → ℕ) (r i v : ℕ) → put f r i v r i ≡ v
put_own f r i v = ap (λ g. g i) (update_own f r (update (f r) i v)) ∙ update_own (f r) i v

pub put_row : (f : ℕ → ℕ → ℕ) (r i v k : ℕ) → r ≢ k → put f r i v k ≡ f k
put_row f r i v k d = update_else f r k (update (f r) i v) d

pub put_else : (f : ℕ → ℕ → ℕ) (r i v j : ℕ) → i ≢ j → put f r i v r j ≡ f r j
put_else f r i v j d = ap (λ g. g j) (update_own f r (update (f r) i v)) ∙ update_else (f r) i j v d

le_trans : (a b c : ℕ) → a ≤ b → b ≤ c → a ≤ c
le_trans a b c h g = omega arith

pub lt_le_trans : (a b c : ℕ) → a < b → b ≤ c → a < c
lt_le_trans a b c h g = omega arith

-- Two texts agree in the characters below `n`.
unfoldable pub Agree : ℕ → (ℕ → ℕ) → (ℕ → ℕ) → Type 0
Agree n a b = (j : ℕ) → j < n → a j ≡ b j

-- What is produced and not consumed waits in the buffer; what is consumed is what was produced.
pub record Handed (size text runs : ℕ) (s : Shared) : Type 0 where
  pub in_order : s.consumed_until ≤ s.produced_until
  pub bounded : s.produced_until ≤ runs
  pub waiting :
      (k : ℕ)
      → s.consumed_until ≤ k
      → k < s.produced_until
      → Agree text (s.buffer (k % size)) (s.produced k)
  pub handed : (k : ℕ) → k < s.consumed_until → Agree text (s.consumed k) (s.produced k)

-- The consumer leaves the producer's arrays and counter, the producer the consumer's, and what it has
-- announced; the counters grow.
abbrev pub Respects : ℕ → Shared → Shared → Type 0
Respects zero s t =
    (t.produced ≡ s.produced)
    × (t.buffer ≡ s.buffer)
    × (t.produced_until ≡ s.produced_until)
    × (s.consumed_until ≤ t.consumed_until)
Respects (suc zero) s t =
    (t.consumed ≡ s.consumed)
    × (t.consumed_until ≡ s.consumed_until)
    × (s.produced_until ≤ t.produced_until)
    × ((k : ℕ) → k < s.produced_until → t.produced k ≡ s.produced k)
Respects (suc (suc i)) s t = Unit

pub Respects-refl : (i : ℕ) (s : Shared) → Respects i s s
Respects-refl zero s = (refl, refl, refl, omega arith)
Respects-refl (suc zero) s = (refl, refl, omega arith, λ k h. refl)
Respects-refl (suc (suc i)) s = tt

pub Respects-trans : (i : ℕ) (s t u : Shared) → Respects i s t → Respects i t u → Respects i s u
Respects-trans zero s t u p q = (q.0 ∙ p.0, q.1 ∙ p.1, q.2 ∙ p.2, le_trans _ _ _ p.3 q.3)
Respects-trans (suc zero) s t u p q =
    (q.0 ∙ p.0, q.1 ∙ p.1, le_trans _ _ _ p.2 q.2, λ k h. q.3 k (lt_le_trans _ _ _ h p.2) ∙ p.3 k h)
Respects-trans (suc (suc i)) s t u p q = tt

-- What the producer does to the consumer, and the consumer to the producer.
pub to_consumer : (s t : Shared) → Respects 1 s t → (j : ℕ) → 0 ≢ j → Respects j s t
to_consumer s t p zero d = absurd (d refl)
to_consumer s t p (suc zero) d = p
to_consumer s t p (suc (suc j)) d = tt

pub to_producer : (s t : Shared) → Respects 0 s t → (j : ℕ) → 1 ≢ j → Respects j s t
to_producer s t p zero d = p
to_producer s t p (suc zero) d = absurd (d refl)
to_producer s t p (suc (suc j)) d = tt

-- While the producer waits in a loop the buffer is full; while the consumer does it is empty, and there
-- are rounds left. Nothing is said of threads that wait for a lock.
abbrev pub Stuck : ℕ → ℕ → Bool → ℕ → Shared → Type 0
Stuck size runs false i s = Unit
Stuck size runs true zero s = s.consumed_until + size ≤ s.produced_until
Stuck size runs true (suc zero) s =
    (s.produced_until ≤ s.consumed_until) × (s.consumed_until < runs)
Stuck size runs true (suc (suc i)) s = Unit

pub spinning-Stuck :
    (size runs : ℕ) (spins : Bool) (i : ℕ) (s : Shared)
    → Stuck size runs true i s
    → Stuck size runs spins i s
spinning-Stuck size runs true i s h = h
spinning-Stuck size runs false i s h = tt

abbrev pub handing : ℕ → ℕ → ℕ → Bool → Contract Shared
handing size text runs spins = record {
  Inv = λ n s. Handed size text runs s;
  Rely = Respects;
  Stuck = Stuck size runs spins;
  idle = λ n s inv. inv;
  rely_refl = Respects-refl;
  rely_trans = Respects-trans;
}

-- The lock is no part of the contract.
pub relock-Handed :
    (size text runs : ℕ) (s : Shared) (o : Option ℕ)
    → Handed size text runs s
    → Handed size text runs (record s { holder = o })
relock-Handed size text runs s o inv = record {
  in_order = inv.in_order;
  bounded = inv.bounded;
  waiting = inv.waiting;
  handed = inv.handed;
}

pub relock-Respects : (s : Shared) (o : Option ℕ) (j : ℕ) → Respects j s (record s { holder = o })
relock-Respects s o zero = (refl, refl, refl, omega arith)
relock-Respects s o (suc zero) = (refl, refl, omega arith, λ k h. refl)
relock-Respects s o (suc (suc j)) = tt

pub take-Owes :
    (size text runs : ℕ) (rand : ℕ → ℕ → ℕ) (i n : ℕ) (s : Shared) (L : Shared → Type 0) (c : Bool)
    (o : Option ℕ)
    → Handed size text runs s
    → (c ≡ true → L (record s { holder = some i }))
    → Owes
        (exec size rand)
        (handing size text runs false)
        {B = Unit {0}}
        i
        n
        s
        (λ _ u. L u)
        (take i c o s)
take-Owes size text runs rand i n s L true none inv l =
    (relock-Handed size text runs s (some i) inv, λ j d. relock-Respects s (some i) j, l refl)
take-Owes size text runs rand i n s L true (some j) inv l = tt
take-Owes size text runs rand i n s L false o inv l = tt

pub wait-Owes :
    (size text runs : ℕ) (spins : Bool) (rand : ℕ → ℕ → ℕ) (i n : ℕ) (s : Shared)
    (L : Shared → Type 0) (c : Bool)
    → Handed size text runs s
    → (c ≡ true → L s)
    → (c ≡ false → Stuck size runs true i s)
    → Owes
        (exec size rand)
        (handing size text runs spins)
        {B = Unit {0}}
        i
        n
        s
        (λ _ u. L u)
        (wait c s)
wait-Owes size text runs spins rand i n s L true inv l w = (inv, λ j d. Respects-refl j s, l refl)
wait-Owes size text runs spins rand i n s L false inv l w =
    spinning-Stuck size runs spins i s (w refl)
