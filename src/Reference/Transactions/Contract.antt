-- ===== src/Reference/Transactions/Contract.antt =====
-- What transactions of reference/tm.c rely on, and their history as a serial run.
use performant_transactional.Base.{
  ℕ, false, Option, none, some, List, [], ◌∷◌, ◌≡◌, ◌≢◌, refl, sym, ◌∙◌, inl, inr, ◌==◌, ==_iff,
  Bool-cases, arith, if◌then◌else◌,
}
use mathlib.Core.List.{Memᴰ}
use performant_transactional.Process.{Prog, ret, act, run}
use performant_transactional.Process.Rely.{Contract}
use performant_transactional.Reference.Transactions.{
  Store, Access, load, Reply, do_access, Body, Commit, Shared, drop_reader,
}

-- The commits one after the other, the last first.
unfoldable pub serial : List Commit → Store → Store
serial [] m = m
serial (c ∷ cs) m = (run do_access c.body (serial cs m)).1

-- Each commit has the result of its turn in the serial run.
unfoldable pub IsSerial : List Commit → Store → Type 0
IsSerial [] m = Unit
IsSerial (c ∷ cs) m = ((run do_access c.body (serial cs m)).0 ≡ c.result) × IsSerial cs m

-- The transactions of one thread.
unfoldable pub own : ℕ → List Commit → List (Body × List ℕ)
own i [] = []
own i (c ∷ cs) =
    let others = own i cs in if c.thread == i then (c.body, c.result) ∷ others else others

unfoldable pub ReadsOnly : {A : Type 0} → Prog Access Reply A → Type 0
ReadsOnly (ret a) = Unit
ReadsOnly (act (load a) k) = (r : ℕ) → ReadsOnly (k r)
ReadsOnly (act (Access.store a v) k) = ⊥
ReadsOnly (act (Access.allocate size answer) k) = ⊥
ReadsOnly (act (Access.release segment) k) = ⊥

pub run-ReadsOnly :
    {A : Type 0} (p : Prog Access Reply A) (m : Store) → ReadsOnly p → (run do_access p m).1 ≡ m
unfolding ReadsOnly do_access
run-ReadsOnly (ret a) m h = refl
run-ReadsOnly (act (load a) k) m h = run-ReadsOnly (k (m.heap.bytes a)) m (h (m.heap.bytes a))
run-ReadsOnly (act (Access.store a v) k) m h = absurd h
run-ReadsOnly (act (Access.allocate size answer) k) m h = absurd h
run-ReadsOnly (act (Access.release segment) k) m h = absurd h

-- Others do not touch what a reader reads, and nothing at all while there is a writer.
unfoldable pub Respects : ℕ → Shared → Shared → Type 0
Respects i s t =
    (own i t.history ≡ own i s.history)
    × (s.writer ≡ some i
        → (t.writer ≡ some i) × ((t.contents ≡ s.contents) × (t.history ≡ s.history)))
    × (Memᴰ i s.readers → Memᴰ i t.readers × (t.contents ≡ s.contents))

pub Respects-refl : (i : ℕ) (s : Shared) → Respects i s s
unfolding Respects
Respects-refl i s = (refl, λ h. (h, (refl, refl)), λ m. (m, refl))

pub Respects-trans : (i : ℕ) (s t u : Shared) → Respects i s t → Respects i t u → Respects i s u
unfolding Respects
Respects-trans i s t u p q = (
  q.0 ∙ p.0,
  λ h. let a = p.1 h in let b = q.1 a.0 in (b.0, (b.1.0 ∙ a.1.0, b.1.1 ∙ a.1.1)),
  λ m. let a = p.2 m in let b = q.2 a.0 in (b.0, b.1 ∙ a.1),
)

-- A writer is alone; without a writer the contents are those of the serial run.
pub record Serial (init : Store) (s : Shared) : Type 0 where
  pub alone : (j : ℕ) → s.writer ≡ some j → s.readers ≡ []
  pub settled : s.writer ≡ none → s.contents ≡ serial s.history init
  pub results : IsSerial s.history init

abbrev pub locking : Store → Contract Shared
locking init = record {
  Inv = λ n s. Serial init s;
  Rely = Respects;
  Stuck = λ i s. Unit;
  idle = λ n s inv. inv;
  rely_refl = Respects-refl;
  rely_trans = Respects-trans;
}

pub drop-Memᴰ : (i j : ℕ) (rs : List ℕ) → i ≢ j → Memᴰ j rs → Memᴰ j (drop_reader i rs)
unfolding drop_reader
drop-Memᴰ i j [] d m = elim m [ ]
drop-Memᴰ i j (r ∷ rs) d (Memᴰ.head e) = elim (Bool-cases (r == i)) [
  | inl c ↦ absurd (d (sym (e ∙ (==_iff r i).0 c)))
  | inr c ↦ rw c (Memᴰ.head e)
]
drop-Memᴰ i j (r ∷ rs) d (Memᴰ.tail m) = elim (Bool-cases (r == i)) [
  | inl c ↦ rw c m
  | inr c ↦ rw c (Memᴰ.tail (drop-Memᴰ i j rs d m))
]

-- A commit of another thread.
pub own-else : (i : ℕ) (c : Commit) (cs : List Commit) → c.thread ≢ i → own i (c ∷ cs) ≡ own i cs
unfolding own
own-else i c cs d = rw (differ c.thread i d) refl
  where
    differ : (a b : ℕ) → a ≢ b → (a == b) ≡ false
    differ a b h = ground arith

pub own-same :
    (i : ℕ) (c : Commit) (cs : List Commit)
    → c.thread ≡ i
    → own i (c ∷ cs) ≡ (c.body, c.result) ∷ own i cs
unfolding own
own-same i c cs e = rw ((==_iff c.thread i).1 e) refl

-- The lock's state read in two ways.
pub not_none : {o : Option ℕ} {i : ℕ} → o ≡ none → o ≡ some i → ⊥
not_none a b = absurd cc

pub nobody : {rs : List ℕ} {j : ℕ} → rs ≡ [] → Memᴰ j rs → ⊥
nobody {rs} {j} e m = elim (rw e at m) [ ]
