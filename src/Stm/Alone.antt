-- ===== src/Stm/Alone.antt =====
-- A call that runs with no other thread in between: what each part of a program leaves.
pub mod Bytes
pub mod Locking
pub mod Ending
pub mod Words
pub mod Reading
pub mod Lifetime
pub mod Roundtrip
use performant_transactional.Base.{
  ℕ, Bool, true, false, if◌then◌else◌, arith, List, [], ◌∷◌, ◌≡◌, refl, ap, ◌∙◌,
}
use performant_transactional.Process.{Prog, ret, act, ◌>>=◌, run}
use performant_transactional.Stm.State.{State, exec, Tm}

abbrev pub alone : {A : Type 0} → Tm A → State → A × State
alone m s = run exec m s

pub alone-bind :
    {A B : Type 0} (m : Tm A) (f : A → Tm B) (s : State)
    → alone (m >>= f) s ≡ alone (f (alone m s).0) (alone m s).1
alone-bind (ret a) f s = refl
alone-bind (act a k) f s = alone-bind (k (exec a s).0) f (exec a s).1

pub alone-then :
    {A B : Type 0} (m : Tm A) (f : A → Tm B) (s t : State) (a : A) (r : B × State)
    → alone m s ≡ (a, t)
    → alone (f a) t ≡ r
    → alone (m >>= f) s ≡ r
alone-then m f s t a r e h = alone-bind m f s ∙ ap (λ (p : _ × State). alone (f p.0) p.1) e ∙ h

pub alone-else :
    {A : Type 0} (b : Bool) (x y : Tm A) (s : State) (r : A × State)
    → b ≡ false
    → alone y s ≡ r
    → alone (if b then x else y) s ≡ r
alone-else true x y s r e h = cc
alone-else false x y s r e h = h

pub alone-yes :
    {A : Type 0} (b : Bool) (x y : Tm A) (s : State) (r : A × State)
    → b ≡ true
    → alone x s ≡ r
    → alone (if b then x else y) s ≡ r
alone-yes true x y s r e h = h
alone-yes false x y s r e h = cc
