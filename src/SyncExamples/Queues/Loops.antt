-- ===== src/SyncExamples/Queues/Loops.antt =====
-- The loops over characters and over rounds, by what one passage through them makes true.
use performant_transactional.Base.{ℕ, zero, suc, ◌+◌, ◌<◌, ◌≤◌, ◌≡◌, arith, Bool}
use performant_transactional.Process.{ret, act, ◌>>◌}
use performant_transactional.Process.Blocking.Triples.{IsKept, Triple, ret-Triple, then-Triple}
use performant_transactional.SyncExamples.Queues.{Shared, Action, exec, each, rounds, Thread}
use performant_transactional.SyncExamples.Queues.Contract.{handing}

module _ (size text runs : ℕ) (spins : Bool) (rand : ℕ → ℕ → ℕ) (t : ℕ) (K : ℕ → Shared → Type 0)
    (kept : (i : ℕ) → IsKept (exec size rand) (handing size text runs spins) t (K i)) where
  abbrev pub Does : ℕ → Thread → ℕ → Type 0
  Does i p j = Triple (exec size rand) (handing size text runs spins) t (K i) p (K j)

  nothing : (i : ℕ) → Does i (ret tt) i
  nothing i = ret-Triple (exec size rand) (handing size text runs spins) t (K i) tt (kept i)

  and_then :
      (i n : ℕ) (p q : Thread)
      → Does i p (i + 1)
      → Does (i + 1) q (i + 1 + n)
      → Does i (p >> q) (i + suc n)
  and_then i n p q h g = rw (added i n) (
      then-Triple (exec size rand) (handing size text runs spins) t (K i) (K (i + 1))
        (K (i + 1 + n)) p q h g)
    where
      added : (i n : ℕ) → i + suc n ≡ i + 1 + n
      added i n = omega arith

  same : (i : ℕ) → i + 0 ≡ i
  same i = omega arith

  pub each-Triple :
      (op : ℕ → Action)
      → ((i : ℕ) → Does i (act (op i) ret) (i + 1))
      → (n i : ℕ) → Does i (each op i n) (i + n)
  unfolding each
  each-Triple op one zero i = rw (same i) (nothing i)
  each-Triple op one (suc n) i =
      and_then i n (act (op i) ret) (each op (i + 1) n) (one i) (each-Triple op one n (i + 1))

  pub rounds-Triple :
      (body : ℕ → Thread)
      → ((r : ℕ) → r < runs → Does r (body r) (r + 1))
      → (n r : ℕ) → r + n ≤ runs
      → Does r (rounds body r n) (r + n)
  unfolding rounds
  rounds-Triple body one zero r e = rw (same r) (nothing r)
  rounds-Triple body one (suc n) r e =
      and_then r n (body r) (rounds body (r + 1) n) (one r (omega arith))
        (rounds-Triple body one n (r + 1) (omega arith))
