-- ===== src/Grading/Bank/Countdown/Rounds.antt =====
-- What one worker of `check` (grading/workload.hpp) keeps while the others take their turns.
use performant_transactional.Base.{
  ℕ, zero, suc, ◌+◌, ◌-◌, ◌≤◌, ◌<◌, Bool, true, false, ◌≡◌, ◌≢◌, refl, ◌∙◌, ltb, arith,
  if◌then◌else◌,
}
use performant_transactional.Process.{update, update_own, update_else}
use performant_transactional.Process.Rely.{Contract, Meets}
use performant_transactional.Grading.Shared.{
  word_mod, sub_word, World, returned, apply, read_cell, write_cell,
}
use performant_transactional.Grading.Bank.{last_tx, decrease_tx}
use performant_transactional.Grading.Shared.Apply.{apply-if}
use performant_transactional.Grading.Bank.Countdown.{fetch, decrease, Board, spend, step, countdown}
use performant_transactional.Process.Totals.{total, total-update, total-le}

-- The counter is what the workers have left; a worker's own rounds are its own, and the counter does
-- not grow.
abbrev pub counting : ℕ → ℕ → Contract Board
counting start workers = record {
  Inv = λ n b. (b.world.mem start ≡ total workers b.left) × (total workers b.left < word_mod);
  Rely = λ i s t. (t.left i ≡ s.left i) × (t.world.mem start ≤ s.world.mem start);
  Stuck = λ i s. Unit;
  idle = λ n b inv. inv;
  rely_refl = λ i b. (refl, omega arith);
  rely_trans = λ i s t u r q. (q.0 ∙ r.0, omega arith);
}

-- A worker returns true, and has no round left.
unfoldable pub IsThrough : ℕ → Bool → Board → Type 0
IsThrough i r b = (r ≡ true) × (b.left i ≡ 0)

step-fetch : (start i : ℕ) (b : Board) → step start i fetch b ≡ (b.world.mem start, b)
unfolding step last_tx apply read_cell
step-fetch start i b = refl

decrease_tx_lem :
    (start last : ℕ) (w : World)
    → apply (decrease_tx start last) w ≡ (
        if ltb last (w.mem start)
        then (returned false, w)
        else (returned true, record w { mem = update w.mem start (sub_word (w.mem start) 1) }))
unfolding decrease_tx apply read_cell write_cell
decrease_tx_lem start last w = apply-if (ltb last (w.mem start)) _ _ w

unfoldable pub decreased : ℕ → ℕ → Board → Board
decreased start i b = record {
  world = record b.world { mem = update b.world.mem start (sub_word (b.world.mem start) 1) };
  left = update b.left i (b.left i - 1);
}

step-decrease :
    (start i last : ℕ) (b : Board)
    → b.world.mem start ≤ last
    → step start i (decrease last) b ≡ (true, decreased start i b)
unfolding step decreased spend
step-decrease start i last b h =
    rw (decrease_tx_lem start last b.world, not_above last (b.world.mem start) h) refl
  where
    not_above : (a c : ℕ) → c ≤ a → ltb a c ≡ false
    not_above a c g = ground arith

sub_word-one : (v : ℕ) → 0 < v → v < word_mod → sub_word v 1 + 1 ≡ v
unfolding sub_word
sub_word-one v h h' = omega arith

module _ (start workers : ℕ) where
  open counting start workers use {Inv, Rely}

  decreased-counter :
      (i : ℕ) (b : Board)
      → 0 < b.world.mem start
      → b.world.mem start < word_mod
      → (decreased start i b).world.mem start + 1 ≡ b.world.mem start
  unfolding decreased
  decreased-counter i b h h' =
      rw (update_own b.world.mem start (sub_word (b.world.mem start) 1))
        (sub_word-one (b.world.mem start) h h')

  decreased-total :
      (i : ℕ) (b : Board)
      → i < workers
      → 0 < b.left i
      → total workers (decreased start i b).left + 1 ≡ total workers b.left
  unfolding decreased
  decreased-total i b h h' =
      let moved = total-update workers i (b.left i - 1) b.left h in omega arith

  decreased-else : (i j : ℕ) (b : Board) → i ≢ j → (decreased start i b).left j ≡ b.left j
  unfolding decreased
  decreased-else i j b d = update_else b.left i j (b.left i - 1) d

  -- A round of worker `i` that has some left.
  decreased-kept :
      (n i : ℕ) (b : Board)
      → i < workers
      → 0 < b.left i
      → Inv (suc n) b
      → Inv n (decreased start i b) × ((j : ℕ) → i ≢ j → Rely j b (decreased start i b))
  decreased-kept n i b h h' inv =
      let bound = total-le workers i b.left h in
      let counter = decreased-counter i b (omega arith) (omega arith) in
      let sum = decreased-total i b h h' in
      ((omega arith, omega arith), λ j d. (decreased-else i j b d, omega arith))

  decreased-left : (i k : ℕ) (b : Board) → b.left i ≡ suc k → (decreased start i b).left i ≡ k
  unfolding decreased
  decreased-left i k b e = update_own b.left i (b.left i - 1) ∙ omega arith

  pub countdown-Meets :
      (i k : ℕ) (b : Board)
      → (0 < k → i < workers)
      → b.left i ≡ k
      → Meets (step start) (counting start workers) i (countdown k) (IsThrough i) b
  unfolding countdown IsThrough
  countdown-Meets i zero b h e = λ t r. (refl, r.0 ∙ e)
  countdown-Meets i (suc k) b h e = λ n t r inv. rw (step-fetch start i t) (
    inv,
    λ j d. (refl, omega arith),
    λ m u q inv'.
        let own = q.0 ∙ r.0 ∙ e in
        let kept = decreased-kept m i u (h (omega arith)) (omega arith) inv' in
        rw (step-decrease start i (t.world.mem start) u q.1) (
          kept.0,
          kept.1,
          countdown-Meets i k (decreased start i u) (λ _. h (omega arith))
              (decreased-left i k u own),
        ),
  )
