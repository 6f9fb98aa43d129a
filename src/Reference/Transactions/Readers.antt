-- ===== src/Reference/Transactions/Readers.antt =====
-- A read-only transaction of reference/tm.c while the others take their turns: there is no writer.
use performant_transactional.Base.{
  ℕ, Bool, true, false, Option, none, some, List, ◌∷◌, ◌≡◌, ◌≢◌, refl, sym, ap, ◌∙◌,
}
use mathlib.Core.List.{Memᴰ}
use performant_transactional.Process.{ret, act, run}
use performant_transactional.Process.Blocking.{Meets, Owes}
use performant_transactional.Reference.Transactions.{
  Store, Access, load, do_access, Body, Shared, Task, exec, rdlock, unlock, refuses, rest, share,
  let_go, drop_reader, embed,
}
use performant_transactional.Reference.Transactions.Contract.{
  serial, IsSerial, own, ReadsOnly, run-ReadsOnly, Respects, Serial, locking, drop-Memᴰ, own-else,
  own-same, not_none, nobody,
}

-- The reader's knowledge: what is left of its body answers what the body answers from the contents.
unfoldable pub Reads : ℕ → List (Body × List ℕ) → Body → Body → Shared → Type 0
Reads i acc body p s =
    Memᴰ i s.readers
    × ReadsOnly p
    × ((run do_access p s.contents).0 ≡ (run do_access body s.contents).0)
    × (own i s.history ≡ acc)

module _ (init : Store) (i : ℕ) (acc : List (Body × List ℕ)) (body : Body)
    (safe : ReadsOnly body) where
  Reads-kept :
      (p : Body) (s t : Shared) → Respects i s t → Reads i acc body p s → Reads i acc body p t
  unfolding Reads Respects
  Reads-kept p s t r k =
      let same = r.2 k.0 in
      (
        same.0,
        k.1,
        ap (λ m. (run do_access p m).0) same.1
            ∙ k.2
            ∙ sym (ap (λ m. (run do_access body m).0) same.1),
        r.0 ∙ k.3,
      )

  read_on :
      (a : ℕ) (f : ℕ → Body) (t : Shared)
      → Reads i acc body (act (load a) f) t
      → Reads i acc body (f (t.contents.heap.bytes a)) t
  unfolding Reads ReadsOnly do_access
  read_on a f t k = (k.0, k.1 (t.contents.heap.bytes a), k.2, k.3)

  Respects-refl' : (j : ℕ) (t : Shared) → Respects j t (record t { contents = t.contents })
  unfolding Respects
  Respects-refl' j t = (refl, λ h. (h, (refl, refl)), λ r. (r, refl))

  same-Serial : (t : Shared) → Serial init t → Serial init (record t { contents = t.contents })
  same-Serial t inv = record { alone = inv.alone; settled = inv.settled; results = inv.results }

  pub embed-Meets :
      {A : Type 0} (Q : A → Shared → Type 0) (p : Body) (k : List ℕ → Task A) (s : Shared)
      → Reads i acc body p s
      → ((v : List ℕ) (t : Shared)
          → Reads i acc body (ret v) t
          → Meets exec (locking init) i (k v) Q t)
      → Meets exec (locking init) i (embed p k) Q s
  unfolding exec do_access Reads ReadsOnly
  embed-Meets Q (ret v) k s w next = next v s w
  embed-Meets Q (act (load a) f) k s w next = λ n t r inv. (
    same-Serial t inv,
    λ j d. Respects-refl' j t,
    embed-Meets Q (f (t.contents.heap.bytes a)) k t
        (read_on a f t (Reads-kept (act (load a) f) s t r w)) next,
  )
  embed-Meets Q (act (Access.store a b) f) k s w next = absurd w.1
  embed-Meets Q (act (Access.allocate size answer) f) k s w next = absurd w.1
  embed-Meets Q (act (Access.release segment) f) k s w next = absurd w.1

  -- The state after the end of the transaction.
  abbrev after : List ℕ → Shared → Shared
  after v t = record t {
    readers = drop_reader i t.readers;
    history = record { thread = i; body = body; result = v } ∷ t.history;
  }

  after-Serial :
      (v : List ℕ) (t : Shared)
      → t.writer ≡ none
      → Reads i acc body (ret v) t
      → Serial init t
      → Serial init (after v t)
  unfolding Reads serial IsSerial
  after-Serial v t e w inv =
      let now = inv.settled e in
      record {
        alone = λ j h. absurd (not_none e h);
        settled = λ h. now ∙ sym (run-ReadsOnly body (serial t.history init) safe);
        results = (sym (w.2 ∙ ap (λ m. (run do_access body m).0) now), inv.results);
      }

  after-Respects :
      (v : List ℕ) (t : Shared) → t.writer ≡ none → (j : ℕ) → i ≢ j → Respects j t (after v t)
  unfolding Respects
  after-Respects v t e j d = (
    own-else j _ t.history d,
    λ h. absurd (not_none e h),
    λ r. (drop-Memᴰ i j t.readers d r, refl),
  )

  Reads-writer :
      (v : List ℕ) (t : Shared) (j : ℕ)
      → t.writer ≡ some j
      → Reads i acc body (ret v) t
      → Serial init t
      → ⊥
  unfolding Reads
  Reads-writer v t j e w inv = nobody (inv.alone j e) w.0

  unlock-Owes :
      (n : ℕ) (v : List ℕ) (t : Shared) (P : Unit {0} → Shared → Type 0) (o : Option ℕ)
      → t.writer ≡ o
      → Reads i acc body (ret v) t
      → Serial init t
      → P tt (after v t)
      → Owes exec (locking init) {B = Unit {0}} i n t P (
          some (
            tt,
            record (let_go i o t) {
              history = record { thread = i; body = body; result = v } ∷ (let_go i o t).history;
            },
          ))
  unlock-Owes n v t P (some j) e w inv next = absurd (Reads-writer v t j e w inv)
  unlock-Owes n v t P none e w inv next = (after-Serial v t e w inv, after-Respects v t e, next)

  after-own :
      (v : List ℕ) (t : Shared)
      → Reads i acc body (ret v) t
      → own i (after v t).history ≡ (body, v) ∷ acc
  unfolding Reads
  after-own v t w = own-same i _ t.history refl ∙ ap (λ a. (body, v) ∷ a) w.3

  pub unlock-Meets :
      {A : Type 0} (Q : A → Shared → Type 0) (v : List ℕ) (k : Unit {0} → Task A) (s : Shared)
      → Reads i acc body (ret v) s
      → ((t : Shared) → own i t.history ≡ (body, v) ∷ acc → Meets exec (locking init) i (k tt) Q t)
      → Meets exec (locking init) i (act (unlock body v) k) Q s
  unfolding exec
  unlock-Meets Q v k s w next = λ n t r inv.
      let now = Reads-kept (ret v) s t r w in
      unlock-Owes n v t (λ r u. Meets exec (locking init) i (k r) Q u) t.writer refl now inv
        (next (after v t) (after-own v t now))

  -- The lock is shared, or refused.
  rdlock-Owes :
      (n : ℕ) (t : Shared) (P : Bool → Shared → Type 0) (f : Bool) (o : Option ℕ)
      → t.writer ≡ o
      → own i t.history ≡ acc
      → Serial init t
      → ((u : Shared) → own i u.history ≡ acc → P false u)
      → ((u : Shared) → Reads i acc body body u → P true u)
      → Owes exec (locking init) {B = Bool} i n t P (share i f o t)
  unfolding Reads Respects
  rdlock-Owes n t P true o e a inv refused granted = (
    record { alone = inv.alone; settled = inv.settled; results = inv.results },
    λ j d. (refl, λ h. (h, (refl, refl)), λ r. (r, refl)),
    refused (record t { refusals = rest t.refusals }) a,
  )
  rdlock-Owes n t P false (some j) e a inv refused granted = tt
  rdlock-Owes n t P false none e a inv refused granted = (
    record { alone = λ j h. absurd (not_none e h); settled = inv.settled; results = inv.results },
    λ j d. (refl, λ h. (h, (refl, refl)), λ r. (Memᴰ.tail r, refl)),
    granted (record t { readers = i ∷ t.readers; refusals = rest t.refusals })
        (Memᴰ.head refl, safe, refl, a),
  )

  pub rdlock-Meets :
      {A : Type 0} (Q : A → Shared → Type 0) (k : Bool → Task A) (s : Shared)
      → own i s.history ≡ acc
      → ((u : Shared) → own i u.history ≡ acc → Meets exec (locking init) i (k false) Q u)
      → ((u : Shared) → Reads i acc body body u → Meets exec (locking init) i (k true) Q u)
      → Meets exec (locking init) i (act rdlock k) Q s
  unfolding exec Respects
  rdlock-Meets Q k s a refused granted = λ n t r inv.
      rdlock-Owes n t (λ b u. Meets exec (locking init) i (k b) Q u) (refuses t.refusals) t.writer
        refl (r.0 ∙ a) inv refused granted
