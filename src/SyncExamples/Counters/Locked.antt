-- ===== src/SyncExamples/Counters/Locked.antt =====
-- counter2.c of sync-examples/: under the lock no round is lost.
use performant_transactional.Base.{
  ℕ, zero, suc, ◌+◌, ◌-◌, ◌%◌, ◌^◌, ◌<◌, Option, none, some, ◌≡◌, ◌≢◌, refl, ap, ◌∙◌, inl, inr,
  Option-cases, arith,
}
use performant_transactional.Process.{update_own, update_else}
use performant_transactional.Process.Rely.{Contract}
use performant_transactional.Process.Totals.{total, total-update, total-le}
use performant_transactional.Process.Blocking.{Meets, Owes}
use performant_transactional.SyncExamples.Counters.{
  Shared, int_mod, spend, take, exec, count_locked,
}

-- What is counted and what is left make up the whole; nobody touches the number while a thread holds
-- the lock.
abbrev pub guarded : ℕ → ℕ → Contract Shared
guarded nbthreads whole = record {
  Inv = λ n s. (s.counter + total nbthreads s.left ≡ whole) × (whole < 2 ^ 31);
  Rely = λ i s t.
      (t.left i ≡ s.left i) × (s.holder ≡ some i → (t.holder ≡ some i) × (t.counter ≡ s.counter));
  Stuck = λ i s. Unit;
  idle = λ n s inv. inv;
  rely_refl = λ i s. (refl, λ h. (h, refl));
  rely_trans =
      λ i s t u r q. (q.0 ∙ r.0, λ h. let a = r.1 h in let b = q.1 a.0 in (b.0, b.1 ∙ a.1));
}

module _ (nbthreads whole : ℕ) where
  open guarded nbthreads whole use {Inv, Rely}

  acquire-Owes :
      (i n : ℕ) (s : Shared) (P : Unit {0} → Shared → Type 0)
      → Inv (suc n) s
      → P tt (record s { holder = some i })
      → Owes exec (guarded nbthreads whole) i n s P (take i s.holder s)
  acquire-Owes i n s P inv p = elim (Option-cases s.holder) [
    | inl e ↦ rw e (inv, λ j d. (refl, λ h. absurd (none_some none refl h)), p)
    | inr (j, e) ↦ rw e tt
  ]
    where
      none_some : {j : ℕ} (o : Option ℕ) → o ≡ none → o ≡ some j → ⊥
      none_some o e h = absurd cc

  -- A thread stores the next number while it holds the lock.
  store-Inv :
      (i k n : ℕ) (s : Shared)
      → i < nbthreads
      → s.left i ≡ suc k
      → Inv (suc n) s
      → Inv n (record s { counter = (s.counter + 1) % int_mod; left = spend i s.left })
  unfolding spend
  store-Inv i k n s h e inv =
      let sum = total-update nbthreads i (s.left i - 1) s.left h in
      let bound = total-le nbthreads i s.left h in (omega arith, inv.1)

  pub count_locked-Meets :
      (i k : ℕ) (s : Shared)
      → (0 < k → i < nbthreads)
      → s.left i ≡ k
      → Meets exec (guarded nbthreads whole) i (count_locked k) (λ _ t. t.left i ≡ 0) s
  unfolding count_locked exec spend
  count_locked-Meets i zero s h e = λ t r. r.0 ∙ e
  count_locked-Meets i (suc k) s h e = λ n t r inv. acquire-Owes i n t _ inv (λ n1 t1 r1 inv1. (
    inv1,
    λ j d. (refl, λ g. (g, refl)),
    λ n2 t2 r2 inv2.
        let mine = r1.1 refl in
        let still = r2.1 mine.0 in
        let own = r2.0 ∙ r1.0 ∙ r.0 ∙ e in
        (
          rw (← still.1) (store-Inv i k n2 t2 (h (omega arith)) own inv2),
          λ j d. (update_else t2.left i j (t2.left i - 1) d, λ g. absurd (other i j d still.0 g)),
          λ n3 t3 r3 inv3.
              let held = r3.1 still.0 in
              (
                inv3,
                λ j d. (refl, λ g. absurd (other i j d held.0 g)),
                count_locked-Meets i k (record t3 { holder = none }) (λ _. h (omega arith))
                    (r3.0 ∙ update_own t2.left i (t2.left i - 1) ∙ ap (λ a. a - 1) own ∙ pred k),
              ),
        ),
  ))
    where
      other : (i j : ℕ) {o : Option ℕ} → i ≢ j → o ≡ some i → o ≡ some j → ⊥
      other i j d a b = d cc

      pred : (k : ℕ) → suc k - 1 ≡ k
      pred k = omega arith
