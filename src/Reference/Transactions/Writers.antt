-- ===== src/Reference/Transactions/Writers.antt =====
-- A read-write transaction of reference/tm.c while the others take their turns: it is alone.
use performant_transactional.Base.{
  ℕ, Bool, true, false, Option, none, some, List, [], ◌∷◌, ◌≡◌, ◌≢◌, refl, sym, ap, ◌∙◌,
}
use performant_transactional.Process.{ret, act, run}
use performant_transactional.Process.Blocking.{Meets, Owes}
use performant_transactional.Reference.Transactions.{
  Store, Access, Reply, do_access, Body, Shared, Task, exec, wrlock, unlock, refuses, rest,
  own_alone, let_go, embed,
}
use performant_transactional.Reference.Transactions.Contract.{
  serial, IsSerial, own, Respects, Serial, locking, own-else, own-same, not_none, nobody,
}

-- The writer's knowledge: what is left of its body leads where the body leads from the serial run.
unfoldable pub Writes : Store → ℕ → List (Body × List ℕ) → Body → Body → Shared → Type 0
Writes init i acc body p s =
    (s.writer ≡ some i)
    × (run do_access p s.contents ≡ run do_access body (serial s.history init))
    × (own i s.history ≡ acc)

other_holder : {o : Option ℕ} {i j : ℕ} → i ≢ j → o ≡ some i → o ≡ some j → ⊥
other_holder d a b = d cc

module _ (init : Store) (i : ℕ) (acc : List (Body × List ℕ)) (body : Body) where
  Writes-kept :
      (p : Body) (s t : Shared)
      → Respects i s t
      → Writes init i acc body p s
      → Writes init i acc body p t
  unfolding Writes Respects
  Writes-kept p s t r k =
      let same = r.1 k.0 in
      (
        same.0,
        ap (run do_access p) same.1.0
            ∙ k.1
            ∙ sym (ap (λ h. run do_access body (serial h init)) same.1.1),
        r.0 ∙ k.2,
      )

  changed-Serial :
      (t : Shared) (m : Store)
      → t.writer ≡ some i
      → Serial init t
      → Serial init (record t { contents = m })
  changed-Serial t m w inv = record {
    alone = inv.alone;
    settled = λ e. absurd (not_none e w);
    results = inv.results;
  }

  changed-Respects :
      (t : Shared) (m : Store)
      → t.writer ≡ some i
      → Serial init t
      → (j : ℕ) → i ≢ j
      → Respects j t (record t { contents = m })
  unfolding Respects
  changed-Respects t m w inv j d =
      (refl, λ h. absurd (other_holder d w h), λ r. absurd (nobody (inv.alone i w) r))

  moved :
      (a : Access) (f : Reply a → Body) (t : Shared)
      → Writes init i acc body (act a f) t
      → Writes init i acc body
          (f (do_access a t.contents).0)
          (record t { contents = (do_access a t.contents).1 })
  unfolding Writes
  moved a f t w = w

  Writes-writer : (p : Body) (s : Shared) → Writes init i acc body p s → s.writer ≡ some i
  unfolding Writes
  Writes-writer p s w = w.0

  pub embed-Meets :
      {A : Type 0} (Q : A → Shared → Type 0) (p : Body) (k : List ℕ → Task A) (s : Shared)
      → Writes init i acc body p s
      → ((v : List ℕ) (t : Shared)
          → Writes init i acc body (ret v) t
          → Meets exec (locking init) i (k v) Q t)
      → Meets exec (locking init) i (embed p k) Q s
  unfolding exec
  embed-Meets Q (ret v) k s w next = next v s w
  embed-Meets Q (act a f) k s w next = λ n t r inv.
      let now = Writes-kept (act a f) s t r w in
      let m = (do_access a t.contents).1 in
      (
        changed-Serial t m (Writes-writer (act a f) t now) inv,
        changed-Respects t m (Writes-writer (act a f) t now) inv,
        embed-Meets Q (f (do_access a t.contents).0) k (record t { contents = m }) (moved a f t now)
            next,
      )

  -- The state after the end of the transaction.
  abbrev after : List ℕ → Shared → Shared
  after v t = record t {
    writer = none;
    history = record { thread = i; body = body; result = v } ∷ t.history;
  }

  after-Serial :
      (v : List ℕ) (t : Shared)
      → Writes init i acc body (ret v) t
      → Serial init t
      → Serial init (after v t)
  unfolding Writes serial IsSerial
  after-Serial v t w inv = record {
    alone = λ j e. absurd cc;
    settled = λ e. ap (λ x. x.1) w.1;
    results = (sym (ap (λ x. x.0) w.1), inv.results);
  }

  after-Respects :
      (v : List ℕ) (t : Shared)
      → Writes init i acc body (ret v) t
      → Serial init t
      → (j : ℕ) → i ≢ j
      → Respects j t (after v t)
  unfolding Writes Respects
  after-Respects v t w inv j d = (
    own-else j _ t.history d,
    λ h. absurd (other_holder d w.0 h),
    λ r. absurd (nobody (inv.alone i w.0) r),
  )

  unlock-Owes :
      (n : ℕ) (v : List ℕ) (t : Shared) (P : Unit {0} → Shared → Type 0) (o : Option ℕ)
      → o ≡ some i
      → Writes init i acc body (ret v) t
      → Serial init t
      → P tt (after v t)
      → Owes exec (locking init) {B = Unit {0}} i n t P (
          some (
            tt,
            record (let_go i o t) {
              history = record { thread = i; body = body; result = v } ∷ (let_go i o t).history;
            },
          ))
  unlock-Owes n v t P none e w inv next = absurd (not_none refl e)
  unlock-Owes n v t P (some j) e w inv next =
      (after-Serial v t w inv, after-Respects v t w inv, next)

  after-own :
      (v : List ℕ) (t : Shared)
      → Writes init i acc body (ret v) t
      → own i (after v t).history ≡ (body, v) ∷ acc
  unfolding Writes
  after-own v t w = own-same i _ t.history refl ∙ ap (λ a. (body, v) ∷ a) w.2

  pub unlock-Meets :
      {A : Type 0} (Q : A → Shared → Type 0) (v : List ℕ) (k : Unit {0} → Task A) (s : Shared)
      → Writes init i acc body (ret v) s
      → ((t : Shared) → own i t.history ≡ (body, v) ∷ acc → Meets exec (locking init) i (k tt) Q t)
      → Meets exec (locking init) i (act (unlock body v) k) Q s
  unfolding exec
  unlock-Meets Q v k s w next = λ n t r inv.
      let now = Writes-kept (ret v) s t r w in
      unlock-Owes n v t (λ r u. Meets exec (locking init) i (k r) Q u) t.writer
        (Writes-writer (ret v) t now) now inv (next (after v t) (after-own v t now))

  -- The lock is taken, or refused.
  wrlock-Owes :
      (n : ℕ) (t : Shared) (P : Bool → Shared → Type 0) (f : Bool) (o : Option ℕ) (rs : List ℕ)
      → t.writer ≡ o
      → t.readers ≡ rs
      → own i t.history ≡ acc
      → Serial init t
      → ((u : Shared) → own i u.history ≡ acc → P false u)
      → ((u : Shared) → Writes init i acc body body u → P true u)
      → Owes exec (locking init) {B = Bool} i n t P (own_alone i f o rs t)
  unfolding Writes Respects
  wrlock-Owes n t P true o rs e g a inv refused granted = (
    record { alone = inv.alone; settled = inv.settled; results = inv.results },
    λ j d. (refl, λ h. (h, (refl, refl)), λ r. (r, refl)),
    refused (record t { refusals = rest t.refusals }) a,
  )
  wrlock-Owes n t P false (some j) rs e g a inv refused granted = tt
  wrlock-Owes n t P false none (r ∷ rs) e g a inv refused granted = tt
  wrlock-Owes n t P false none [] e g a inv refused granted = (
    record { alone = λ j h. g; settled = λ h. absurd (not_none h refl); results = inv.results },
    λ j d. (refl, λ h. absurd (not_none e h), λ r. absurd (nobody g r)),
    granted (record t { writer = some i; refusals = rest t.refusals })
        (refl, ap (run do_access body) (inv.settled e), a),
  )

  pub wrlock-Meets :
      {A : Type 0} (Q : A → Shared → Type 0) (k : Bool → Task A) (s : Shared)
      → own i s.history ≡ acc
      → ((u : Shared) → own i u.history ≡ acc → Meets exec (locking init) i (k false) Q u)
      → ((u : Shared) → Writes init i acc body body u → Meets exec (locking init) i (k true) Q u)
      → Meets exec (locking init) i (act wrlock k) Q s
  unfolding exec Respects
  wrlock-Meets Q k s a refused granted = λ n t r inv.
      wrlock-Owes n t (λ b u. Meets exec (locking init) i (k b) Q u) (refuses t.refusals) t.writer
        t.readers refl refl (r.0 ∙ a) inv refused granted
