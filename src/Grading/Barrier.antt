-- ===== src/Grading/Barrier.antt =====
-- `Barrier` of grading/common.hpp: a thread's call of `sync`, one action for each access to an atomic.
use performant_transactional.Base.{
  ℕ, zero, suc, ◌+◌, ◌-◌, ◌%◌, ◌^◌, Option, none, some, ◌≡◌, refl, ◌==◌, if◌then◌else◌,
}
use performant_transactional.Process.{Prog, ret, act, ◌>>=◌, ◌>>◌, run}

-- `uint_fast32_t`, which has 64 bits
abbrev pub counter_mod : ℕ
counter_mod = 2 ^ 64

pub data Mode : Type 0 where
  enter leave : Mode

pub record Barrier : Type 0 where
  pub cardinal : ℕ
  pub step : ℕ
  pub mode : Mode

unfoldable pub new_barrier : ℕ → Barrier
new_barrier cardinal = record { cardinal = cardinal; step = 0; mode = enter }

pub data Action : Type 0 where
  fetch_add fetch_sub load_mode : Action
  store_mode : Mode → Action

abbrev pub Answer : Action → Type 0
Answer fetch_add = ℕ
Answer fetch_sub = ℕ
Answer load_mode = Mode
Answer (store_mode m) = Unit {0}

unfoldable pub exec : (a : Action) → Barrier → Answer a × Barrier
exec fetch_add b = (b.step, record b { step = (b.step + 1) % counter_mod })
exec fetch_sub b = (b.step, record b { step = (b.step + counter_mod - 1) % counter_mod })
exec load_mode b = (b.mode, b)
exec (store_mode m) b = (tt, record b { mode = m })

abbrev pub Task : Type 0 → Type 0
Task A = Prog Action Answer A

-- The spin loops run on fuel, and answer `none` when it is used up.
unfoldable pub await_leave : ℕ → Task (Option (Unit {0}))
await_leave zero = ret none
await_leave (suc fuel) = do
  m ← act load_mode ret
  let again = await_leave fuel
  elim m [ leave ↦ ret (some tt) | enter ↦ again ]

unfoldable pub await_enter : ℕ → Task (Option (Unit {0}))
await_enter zero = ret none
await_enter (suc fuel) = do
  m ← act load_mode ret
  let again = await_enter fuel
  elim m [ enter ↦ ret (some tt) | leave ↦ again ]

unfoldable pub sync_enter : ℕ → ℕ → Task (Option (Unit {0}))
sync_enter fuel cardinal = do
  step ← act fetch_add ret
  if (step + 1) % counter_mod == cardinal
      then (do act (store_mode leave) ret; ret (some tt))
      else await_leave fuel

unfoldable pub sync_leave : ℕ → Task (Option (Unit {0}))
sync_leave fuel = do
  step ← act fetch_sub ret
  if (step + counter_mod - 1) % counter_mod == 0
      then (do act (store_mode enter) ret; ret (some tt))
      else await_enter fuel

unfoldable pub sync : ℕ → ℕ → Task (Option (Unit {0}))
sync fuel cardinal = do
  entered ← sync_enter fuel cardinal
  elim entered [ none ↦ ret none | some u ↦ sync_leave fuel ]

-- A barrier for one thread lets it through, and is as before.
sync_one : run exec (sync 0 1) (new_barrier 1) ≡ (some tt, new_barrier 1)
unfolding sync sync_enter sync_leave exec new_barrier
sync_one = refl
