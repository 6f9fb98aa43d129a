-- ===== src/SyncExamples/Counters/Fetched.antt =====
-- counter4.c of sync-examples/: with fetch_add no round is lost.
use performant_transactional.Base.{ℕ, zero, suc, ◌+◌, ◌-◌, ◌%◌, ◌^◌, ◌<◌, ◌≡◌, refl, ap, ◌∙◌, arith}
use performant_transactional.Process.{update_own, update_else}
use performant_transactional.Process.Rely.{Contract}
use performant_transactional.Process.Totals.{total, total-update, total-le}
use performant_transactional.Process.Blocking.{Meets}
use performant_transactional.Process.Blocking.Turns.{IsFree}
use performant_transactional.SyncExamples.Counters.{Shared, int_mod, spend, exec, count_fetch}

-- What is counted and what is left make up the whole.
abbrev pub counting : ℕ → ℕ → Contract Shared
counting nbthreads whole = record {
  Inv = λ n s. (s.counter + total nbthreads s.left ≡ whole) × (whole < 2 ^ 31);
  Rely = λ i s t. t.left i ≡ s.left i;
  Stuck = λ i s. Unit;
  idle = λ n s inv. inv;
  rely_refl = λ i s. refl;
  rely_trans = λ i s t u r q. q ∙ r;
}

module _ (nbthreads whole : ℕ) where
  open counting nbthreads whole use {Inv}

  fetch_add-Inv :
      (i k n : ℕ) (s : Shared)
      → i < nbthreads
      → s.left i ≡ suc k
      → Inv (suc n) s
      → Inv n (record s { counter = (s.counter + 1) % int_mod; left = spend i s.left })
  unfolding spend
  fetch_add-Inv i k n s h e inv =
      let sum = total-update nbthreads i (s.left i - 1) s.left h in
      let bound = total-le nbthreads i s.left h in (omega arith, inv.1)

  pub count_fetch-Meets :
      (i k : ℕ) (s : Shared)
      → (0 < k → i < nbthreads)
      → s.left i ≡ k
      → Meets exec (counting nbthreads whole) i (count_fetch k) (λ _ t. t.left i ≡ 0) s
  unfolding count_fetch exec spend
  count_fetch-Meets i zero s h e = λ t r. r ∙ e
  count_fetch-Meets i (suc k) s h e = λ n t r inv. (
    fetch_add-Inv i k n t (h (omega arith)) (r ∙ e) inv,
    λ j d. update_else t.left i j (t.left i - 1) d,
    count_fetch-Meets i k _ (λ _. h (omega arith))
        (update_own t.left i (t.left i - 1) ∙ ap (λ a. a - 1) (r ∙ e) ∙ pred k),
  )
    where
      pred : (k : ℕ) → suc k - 1 ≡ k
      pred k = omega arith

pub count_fetch-IsFree : (i k : ℕ) → IsFree exec i k (count_fetch k)
unfolding IsFree count_fetch exec
count_fetch-IsFree i zero = tt
count_fetch-IsFree i (suc k) = (λ s. (s.counter, _, refl), λ r. count_fetch-IsFree i k)
