-- ===== src/Reference/Transactions/Results.antt =====
-- Transactions of reference/tm.c, in any order of turns, are a serial run.
use performant_transactional.Base.{
  ℕ, Bool, true, false, Option, none, some, List, [], ◌∷◌, ◌≡◌, refl, ◌∙◌, inl, inr, ◌==◌,
  Bool-cases, length,
}
use performant_transactional.Process.{ret, act, ◌>>=◌}
use performant_transactional.Process.Blocking.{
  Meets, Meets-bind, IsSound, interleave-IsSound, start-IsSound, Post-returned,
}
use performant_transactional.Reference.Transactions.{
  Store, Body, Shared, Tx, Task, exec, unlock, read_only_tx, read_write_tx, tm_begin, tm_end,
  transact, work, begin, after_turns,
}
use performant_transactional.Reference.Transactions.Contract.{
  serial, IsSerial, own, ReadsOnly, Respects, locking,
}
use performant_transactional.Reference.Transactions.Readers
use performant_transactional.Reference.Transactions.Writers

-- Read-only transactions only read.
abbrev pub Keeps : Bool → Body → Type 0
Keeps true body = ReadsOnly body
Keeps false body = Unit

unfoldable pub AllKeep : List Tx → Type 0
AllKeep [] = Unit
AllKeep (t ∷ ts) = Keeps t.is_ro t.body × AllKeep ts

-- The transactions that were not refused and their results, the last first, before those of `acc`.
abbrev pub note : Body → Option (List ℕ) → List (Body × List ℕ) → List (Body × List ℕ)
note body none acc = acc
note body (some v) acc = (body, v) ∷ acc

unfoldable pub onto : List Tx → List (Option (List ℕ)) → List (Body × List ℕ) → List (Body × List ℕ)
onto [] vs acc = acc
onto (t ∷ ts) [] acc = acc
onto (t ∷ ts) (v ∷ vs) acc = onto ts vs (note t.body v acc)

tm_end_lem : (tx : ℕ) (body : Body) (v : List ℕ) → tm_end tx body v ≡ act (unlock body v) ret
unfolding tm_end
tm_end_lem tx body v = elim (Bool-cases (tx == read_only_tx)) [
  | inl e ↦ rw e refl
  | inr e ↦ rw e refl
]

module _ (init : Store) (i : ℕ) where
  Made : List (Body × List ℕ) → Tx → Option (List ℕ) → Shared → Type 0
  Made acc t v s = own i s.history ≡ note t.body v acc

  Made-kept :
      (acc : List (Body × List ℕ)) (t : Tx) (v : Option (List ℕ)) (s u : Shared)
      → Made acc t v s
      → Respects i s u
      → Made acc t v u
  unfolding Made Respects
  Made-kept acc t v s u h r = r.0 ∙ h

  abbrev goes_on : Tx → ℕ → List ℕ → Task (Option (List ℕ))
  goes_on t tx v = tm_end tx t.body v >>= λ _. ret (some v)

  transact-Meets :
      (acc : List (Body × List ℕ)) (ro : Bool) (body : Body) (s : Shared)
      → Keeps ro body
      → own i s.history ≡ acc
      → Meets exec
          (locking init)
          i
          (transact (record { is_ro = ro; body = body }))
          (Made acc (record { is_ro = ro; body = body }))
          s
  unfolding transact tm_begin Made Respects
  transact-Meets acc true body s k a =
      Readers.rdlock-Meets init i acc body k _ _ s a (λ u h v r. r.0 ∙ h)
        (λ u w. Readers.embed-Meets init i acc body k _ body _ u w (λ v t w'.
          rw (tm_end_lem read_only_tx body v) (
            Readers.unlock-Meets init i acc body k (Made acc (record { is_ro = true; body = body }))
              v (λ x. ret (some v)) t w' (λ u' h u'' r. r.0 ∙ h))))
  transact-Meets acc false body s k a =
      Writers.wrlock-Meets init i acc body _ _ s a (λ u h v r. r.0 ∙ h)
        (λ u w. Writers.embed-Meets init i acc body _ body _ u w (λ v t w'.
          rw (tm_end_lem read_write_tx body v) (
            Writers.unlock-Meets init i acc body (Made acc (record { is_ro = false; body = body }))
              v (λ x. ret (some v)) t w' (λ u' h u'' r. r.0 ∙ h))))

  work-Meets :
      (ts : List Tx) (acc : List (Body × List ℕ)) (s : Shared)
      → AllKeep ts
      → own i s.history ≡ acc
      → Meets exec (locking init) i (work ts) (λ vs u. own i u.history ≡ onto ts vs acc) s
  unfolding work onto AllKeep Respects Made
  work-Meets [] acc s k a = λ t r. r.0 ∙ a
  work-Meets (t ∷ ts) acc s k a =
      Meets-bind exec (locking init) i (transact t) _ (Made acc t) _ s
        (transact-Meets acc t.is_ro t.body s k.0 a)
        (λ v u h.
          Meets-bind exec (locking init) i (work ts) _
            (λ vs u'. own i u'.history ≡ onto ts vs (note t.body v acc)) _ u
            (work-Meets ts (note t.body v acc) u k.1 h) (λ vs u' h' t' r. r.0 ∙ h'))

unfoldable Outcome : (ℕ → List Tx) → ℕ → List (Option (List ℕ)) → Shared → Type 0
Outcome txs i vs s = own i s.history ≡ onto (txs i) vs []

transactions-IsSound :
    (init : Store) (refusals : List Bool) (txs : ℕ → List Tx) (is : List ℕ)
    → ((i : ℕ) → AllKeep (txs i))
    → IsSound exec (locking init) (Outcome txs) 0 (after_turns init refusals txs is)
unfolding after_turns begin Outcome serial IsSerial own
transactions-IsSound init refusals txs is keep =
    interleave-IsSound exec (locking init) (Outcome txs) is (begin init refusals txs) (
      start-IsSound exec (locking init) (Outcome txs) (length is) (begin init refusals txs)
        (record { alone = λ j e. refl; settled = λ e. refl; results = tt })
        (λ i. work-Meets init i (txs i) [] (begin init refusals txs).shared (keep i) refl))

-- Any number of threads make transactions through the reference implementation, of which the read-only
-- ones only read, in any order of turns, whatever calls of the lock fail. While nobody holds the lock as
-- a writer, the contents are those at the end of a serial run, from the contents at the start, of the
-- transactions that have ended, in the order in which they ended; and each of these has the result
-- that it has in the serial run.
pub transactions-serial :
    (init : Store) (refusals : List Bool) (txs : ℕ → List Tx) (is : List ℕ)
    → ((i : ℕ) → AllKeep (txs i))
    → (after_turns init refusals txs is).shared.writer ≡ none
    → let s = (after_turns init refusals txs is).shared in
      IsSerial s.history init × (s.contents ≡ serial s.history init)
transactions-serial init refusals txs is keep free =
    let sound = transactions-IsSound init refusals txs is keep in
    (sound.inv.results, sound.inv.settled free)

-- Any number of threads make transactions through the reference implementation, of which the read-
-- only ones only read, in any order of turns, whatever calls of the lock fail. When a thread has
-- returned, its results, but for the transactions that tm_begin refused, are those that its
-- transactions, in their order, have in a serial run of all the transactions that have ended.
pub transactions-own :
    (init : Store) (refusals : List Bool) (txs : ℕ → List Tx) (is : List ℕ) (i : ℕ)
    (vs : List (Option (List ℕ)))
    → ((j : ℕ) → AllKeep (txs j))
    → (after_turns init refusals txs is).threads i ≡ ret vs
    → let s = (after_turns init refusals txs is).shared in
      IsSerial s.history init × (own i s.history ≡ onto (txs i) vs [])
unfolding Outcome
transactions-own init refusals txs is i vs keep e =
    let y = after_turns init refusals txs is in
    let sound = transactions-IsSound init refusals txs is keep in
    (sound.inv.results, Post-returned exec (locking init) (Outcome txs) 0 i vs y sound e)
