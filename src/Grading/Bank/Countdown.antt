-- ===== src/Grading/Bank/Countdown.antt =====
-- The countdown of `check` (grading/workload.hpp): workers that decrease one counter. A transaction is
-- one step here; the turns of the workers fall in any order.
pub mod Rounds
pub mod Ends
use performant_transactional.Base.{
  ℕ, zero, suc, ◌+◌, ◌-◌, ◌*◌, ◌≤◌, ◌<◌, Bool, true, false, List, ◌≡◌, ◌≢◌, refl, sym, ap, ◌∙◌, inl,
  inr, ◌==◌, ==_iff, Bool-cases, ltb, length, arith, if◌then◌else◌,
}
use performant_transactional.Process.{Prog, ret, act, ◌>>=◌, System, update, interleave}
use performant_transactional.Process.Rely.{
  Contract, Meets, IsSound, interleave-IsSound, start-IsSound, Post-returned,
}
use performant_transactional.Grading.Shared.{
  word_mod, sub_word, World, Outcome, returned, thrown, apply, read_cell, write_cell,
}
use performant_transactional.Grading.Bank.{last_tx, decrease_tx}
use performant_transactional.Grading.Shared.Apply.{apply-if}

-- The two transactions of the loop.
pub data Step : Type 0 where
  fetch : Step
  decrease : ℕ → Step

abbrev pub Result : Step → Type 0
Result fetch = ℕ
Result (decrease last) = Bool

-- The shared words. `left` is not in the code: how many rounds each worker still has.
pub record Board : Type 0 where
  pub world : World
  pub left : ℕ → ℕ

-- These transactions allocate nothing, so that they do not throw.
abbrev pub value : {A : Type 0} → A → Outcome A → A
value d (returned x) = x
value d (thrown e) = d

-- A round that succeeds is done.
unfoldable pub spend : ℕ → Bool → (ℕ → ℕ) → ℕ → ℕ
spend i true left = update left i (left i - 1)
spend i false left = left

unfoldable pub step : ℕ → ℕ → (a : Step) → Board → Result a × Board
step start i fetch b =
    let (o, w) = apply (last_tx start) b.world in (value 0 o, record b { world = w })
step start i (decrease last) b =
    let (o, w) = apply (decrease_tx start last) b.world in
    (value false o, record { world = w; left = spend i (value false o) b.left })

-- The loop of a worker, over the rounds left; false: "Violated consistency".
unfoldable pub countdown : ℕ → Prog Step Result Bool
countdown zero = ret true
countdown (suc n) = do
  last ← act fetch ret
  correct ← act (decrease last) ret
  let next = countdown n
  if correct then next else ret false

unfoldable pub rounds_of : ℕ → ℕ → ℕ → ℕ
rounds_of workers rounds i = if ltb i workers then rounds else 0

module _ (start workers rounds : ℕ) (w : World) where
  unfoldable pub begin : System Step Result Board Bool
  begin = record {
    shared = record { world = w; left = rounds_of workers rounds };
    threads = λ i. countdown (rounds_of workers rounds i);
  }

  unfoldable pub after_turns : List ℕ → System Step Result Board Bool
  after_turns is = interleave (step start) is begin
