-- ===== src/Grading/Chrono.antt =====
-- `Chrono` of grading/common.hpp. A tick is a word of 64 bits.
use performant_transactional.Base.{
  ℕ, ◌+◌, ◌-◌, ◌*◌, ◌%◌, ◌^◌, ◌≤◌, ◌<◌, Option, none, some, ◌≡◌, ◌≢◌, inl, inr, ◌==◌, Bool-cases,
  ap, arith, if◌then◌else◌,
}

abbrev pub tick_mod : ℕ
tick_mod = 2 ^ 64

abbrev pub invalid_tick : ℕ
invalid_tick = 195936478  -- 0xbadc0de

pub record Chrono : Type 0 where
  pub total : ℕ
  pub local : ℕ

-- `struct timespec`
pub record Timespec : Type 0 where
  pub tv_sec : ℕ
  pub tv_nsec : ℕ

-- `none` if the clock's function fails.
unfoldable pub convert : Option Timespec → ℕ
convert none = invalid_tick
convert (some buf) =
    let res = (buf.tv_nsec + buf.tv_sec * 1000000000) % tick_mod in
    if res == invalid_tick then invalid_tick + 1 else res

unfoldable pub start : Option Timespec → Chrono → Chrono
start time c = record c { local = convert time }

unfoldable pub delta : Option Timespec → Chrono → ℕ
delta time c = (convert time + tick_mod - c.local) % tick_mod

unfoldable pub stop : Option Timespec → Chrono → Chrono
stop time c = record c { total = (c.total + delta time c) % tick_mod }

unfoldable pub reset : Chrono → Chrono
reset c = record c { total = 0 }

convert-lt : (time : Option Timespec) → convert time < tick_mod
unfolding convert
convert-lt none = omega arith
convert-lt (some buf) =
    elim (Bool-cases ((buf.tv_nsec + buf.tv_sec * 1000000000) % tick_mod == invalid_tick)) [
      | inl e ↦ rw e (omega arith)
      | inr e ↦ rw e (omega arith)
    ]

convert-valid : (buf : Timespec) → convert (some buf) ≢ invalid_tick
unfolding convert
convert-valid buf =
    elim (Bool-cases ((buf.tv_nsec + buf.tv_sec * 1000000000) % tick_mod == invalid_tick)) [
      | inl e ↦ rw e (λ h. absurd (omega arith))
      | inr e ↦ rw e (λ h. ground arith)
    ]

difference : (a b : ℕ) → a ≤ b → b < tick_mod → (b + tick_mod - a) % tick_mod ≡ b - a
difference a b h h' = omega arith

-- A clock that answers never reads as `invalid_tick`, whatever its time. Between `start` and `stop`
-- the total grows by the time between the two, in ticks, if the second is not before the first.
pub stop-start :
    (c : Chrono) (time time' : Timespec)
    → convert (some time) ≤ convert (some time')
    → (convert (some time') ≢ invalid_tick)
      × ((stop (some time') (start (some time) c)).total
          ≡ (c.total + (convert (some time') - convert (some time))) % tick_mod)
unfolding start stop delta
stop-start c time time' h = (
  convert-valid time',
  ap (λ d. (c.total + d) % tick_mod)
      (difference (convert (some time)) (convert (some time')) h (convert-lt (some time'))),
)
