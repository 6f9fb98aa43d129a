-- ===== src/Stm/Clock.antt =====
-- The global version clock under any interleaving: the contract that every action keeps.
mod Actions
pub mod Calls
use performant_transactional.Base.{
  ℕ, suc, ◌+◌, ◌%◌, ◌*◌, ◌^◌, ◌/◌, ◌≤◌, ◌<◌, ◌≡◌, ◌≢◌, refl, Bool, true, false, arith, List, [],
  ◌∷◌, if◌then◌else◌, ◌==◌,
}
use performant_transactional.Process.{Prog, ret, act, ◌>>=◌, Semantics}
use performant_transactional.Process.Rely.{Contract, Meets, Meets-bind}
use performant_transactional.Stm.State.{
  word_mod, State, Act, Res, load_gvc, add_gvc, load_lock, cas_lock, store_lock, load_byte,
  store_byte, allocate, release, load_segs, clear_segs, splice, exec, Tm, ask,
}
use performant_transactional.Stm.Lock.{version_of}

-- No version is ahead of the clock, which has `n` more steps before it wraps.
pub record IsTimely (n : ℕ) (s : State) : Type 0 where
  pub room : s.gvc + n < word_mod
  pub fits : (l : ℕ) → s.locks l < word_mod
  pub behind : (l : ℕ) → version_of (s.locks l) ≤ s.gvc

-- The others only ever move the clock forward.
abbrev pub clock : Contract State
clock = record {
  Inv = IsTimely;
  Rely = λ i s t. s.gvc ≤ t.gvc;
  Stuck = λ i s. Unit;
  idle = λ n s v. record { room = omega (arith, v.room); fits = v.fits; behind = v.behind };
  rely_refl = λ i s. omega arith;
  rely_trans = λ i s t u p q. omega arith;
}

-- What an action must respect to keep the contract.
abbrev pub Permits : Act → State → Type 0
Permits (add_gvc n) s = n ≤ 1
Permits (cas_lock l expected desired) s = (version_of desired ≤ s.gvc) × (desired < word_mod)
Permits (store_lock l w) s = (version_of w ≤ s.gvc) × (w < word_mod)
Permits _ s = Unit

pub exec-IsTimely :
    (a : Act) (n : ℕ) (s : State)
    → Permits a s
    → IsTimely (suc n) s
    → IsTimely n (exec a s).1 × (s.gvc ≤ (exec a s).1.gvc)
unfolding exec
exec-IsTimely (add_gvc k) n s p v = (
  record {
    room = ground (arith, v.room);
    fits = v.fits;
    behind = λ l. ground (arith, v.room, v.behind l);
  },
  ground (arith, v.room),
)
exec-IsTimely (cas_lock k e d) n s p v = (
  record {
    room = ground (arith, v.room);
    fits = λ l. ground (arith, v.fits l);
    behind = λ l. ground (arith, v.behind l);
  },
  ground arith,
)
exec-IsTimely (store_lock k w) n s p v = (
  record {
    room = ground (arith, v.room);
    fits = λ l. ground (arith, v.fits l);
    behind = λ l. ground (arith, v.behind l);
  },
  ground arith,
)
exec-IsTimely (release k) n s p v = (
  record {
    room = ground (arith, v.room);
    fits = λ l. ground (arith, v.fits l);
    behind = λ l. ground (arith, v.behind l);
  },
  ground arith,
)
exec-IsTimely _ n s p v =
    (record { room = omega (arith, v.room); fits = v.fits; behind = v.behind }, omega arith)
