-- ===== src/Grading/Shared/Apply.antt =====
-- What sequences and conditionals of closures do (grading/transactional.hpp).
use performant_transactional.Base.{ℕ, Bool, true, false, ◌≡◌, refl, ◌==◌, if◌then◌else◌}
use performant_transactional.Process.{ret, act, ◌>>=◌, update}
use performant_transactional.Grading.Shared.{
  Tx, read, write, alloc, free, World, first, rest, zero_words, Outcome, returned, thrown,
  transaction_alloc, apply,
}

pub apply-if :
    {A : Type 0} (c : Bool) (p q : Tx A) (w : World)
    → apply (if c then p else q) w ≡ (if c then apply p w else apply q w)
apply-if true p q w = refl
apply-if false p q w = refl

-- What follows a closure.
unfoldable pub resume : {A B : Type 0} → (A → Tx B) → Outcome A × World → Outcome B × World
resume f (returned x, w) = apply (f x) w
resume f (thrown e, w) = (thrown e, w)

unfoldable after_allocation : ℕ → World → World
after_allocation n w = record { mem = zero_words w.mem (first w.blocks) n; blocks = rest w.blocks }

resume-if :
    {A B : Type 0} (c : Bool) (f : A → Tx B) (p q : Outcome A × World)
    → (if c then resume f p else resume f q) ≡ resume f (if c then p else q)
resume-if true f p q = refl
resume-if false f p q = refl

pub apply-bind :
    {A B : Type 0} (p : Tx A) (f : A → Tx B) (w : World) → apply (p >>= f) w ≡ resume f (apply p w)
unfolding apply resume after_allocation
apply-bind (ret x) f w = refl
apply-bind (act (read a) k) f w = apply-bind (k (w.mem a)) f w
apply-bind (act (write a v) k) f w = apply-bind (k tt) f (record w { mem = update w.mem a v })
apply-bind (act (alloc n) k) f w = rw (apply-bind (k (first w.blocks)) f (after_allocation n w)) (
    resume-if (first w.blocks == 0) f (thrown transaction_alloc, w)
      (apply (k (first w.blocks)) (after_allocation n w)))
apply-bind (act (free a) k) f w = apply-bind (k tt) f w

-- After a closure that returned, the answer alone is another.
pub resume-returned :
    {A B : Type 0} (o : Outcome A × World) (x : B) (P : World → Type 0) (a : A)
    → o.0 ≡ returned a
    → P o.1
    → let u = resume (λ (y : A). ret x) o in (u.0 ≡ returned x) × P u.1
unfolding resume apply
resume-returned (returned y, w) x P a e h = (refl, h)
resume-returned (thrown y, w) x P a e h = absurd cc
