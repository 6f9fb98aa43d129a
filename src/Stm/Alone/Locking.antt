-- ===== src/Stm/Alone/Locking.antt =====
-- Steps (3) and (5) of tm_end run alone: taking the locks, giving them back, validating.
use mathlib.Core.Path.{fun_ext}
use mathlib.Core.Bool.{or_assoc}
use performant_transactional.Base.{
  ◌||◌, ℕ, ◌<◌, ◌^◌, ◌≡◌, refl, List, [], ◌∷◌, arith, ◌==◌, if◌then◌else◌, ◌∙◌, Bool, true, false,
  ◌&&◌, not, has, Bool-cases, inl, inr, ltb,
}
use performant_transactional.Process.{ret, ◌>>=◌, update}
use performant_transactional.Stm.State.{State, exec, Tm}
use performant_transactional.Stm.Lock.{
  stripe, expected_word, locked_word, unlocked_word, version_of, is_locked_word, lock, unlock,
  is_locked, get_version,
}
use performant_transactional.Stm.Lock.Words.{locked_word_lem, locked_version}
use performant_transactional.Stm.Transaction.{Entry, insert_read}
use performant_transactional.Stm.Commit.{unlock_all, lock_write_set, is_stale, validate}
use performant_transactional.Stm.Alone.{alone, alone-bind}

-- The same state where no weak exchange fails for no reason.
abbrev pub calm : State → State
calm s = record s { luck = [] }

abbrev pub Words : Type 0
Words = ℕ → ℕ

-- Exactly the locks in `held` are taken.
abbrev pub HoldsOnly : List ℕ → Words → Type 0
HoldsOnly held f = (l : ℕ) → is_locked_word (f l) ≡ has l held

unfoldable pub take : Words → ℕ → Words
take f l = update f l (locked_word (expected_word (f l)))

unfoldable pub take_all : List Entry → Words → Words
take_all [] f = f
take_all ((a, bs) ∷ ws) f = take_all ws (take f (stripe a))

unfoldable pub hold : List Entry → List ℕ → List ℕ
hold [] held = held
hold ((a, bs) ∷ ws) held = hold ws (insert_read (stripe a) held)

alone-lock_free :
    (l : ℕ) (s : State)
    → is_locked_word (s.locks l) ≡ false
    → alone (lock l) (calm s) ≡ (true, calm (record s { locks = take s.locks l }))
unfolding lock exec take
alone-lock_free l s h =
    let e : (s.locks l == expected_word (s.locks l)) ≡ true =
      ground (arith, (locked_word_lem (s.locks l)).2.1 h) in
    rw e refl

alone-lock_held :
    (l : ℕ) (s : State)
    → is_locked_word (s.locks l) ≡ true
    → alone (lock l) (calm s) ≡ (false, calm s)
unfolding lock exec
alone-lock_held l s h =
    let e : (s.locks l == expected_word (s.locks l)) ≡ false =
      ground (arith, (locked_word_lem (s.locks l)).2.0) in
    rw e refl

-- A lock that is held already keeps its word.
take_held : (f : Words) (l : ℕ) → is_locked_word (f l) ≡ true → take f l ≡ f
unfolding take is_locked_word locked_word expected_word
take_held f l h = fun_ext λ j. ground arith

insert_read_held : (l : ℕ) (held : List ℕ) → has l held ≡ true → insert_read l held ≡ held
unfolding insert_read
insert_read_held l held h = rw h

take-HoldsOnly :
    (f : Words) (l : ℕ) (held : List ℕ)
    → HoldsOnly held f
    → HoldsOnly (insert_read l held) (take f l)
unfolding take insert_read has
take-HoldsOnly f l held h j = ground (arith, h j, h l, (locked_word_lem (f l)).0)

pub take_all-HoldsOnly :
    (ws : List Entry) (f : Words) (held : List ℕ)
    → HoldsOnly held f
    → HoldsOnly (hold ws held) (take_all ws f)
unfolding hold take_all
take_all-HoldsOnly [] f held h = h
take_all-HoldsOnly ((a, bs) ∷ ws) f held h =
    take_all-HoldsOnly ws (take f (stripe a)) (insert_read (stripe a) held)
      (take-HoldsOnly f (stripe a) held h)

-- With the other locks free, the loop of (3) takes every lock of the write set.
pub alone-lock_write_set :
    (ws : List Entry) (held : List ℕ) (s : State)
    → HoldsOnly held s.locks
    → alone (lock_write_set ws held) (calm s)
      ≡ ((true, hold ws held), calm (record s { locks = take_all ws s.locks }))
unfolding lock_write_set hold take_all
alone-lock_write_set [] held s h = refl
alone-lock_write_set ((a, bs) ∷ ws) held s h = elim (Bool-cases (has (stripe a) held)) [
  | inl mine ↦
      alone-bind (lock (stripe a)) _ (calm s)
      ∙ rw
          (
            alone-lock_held (stripe a) s (h (stripe a) ∙ mine),
            mine,
            take_held s.locks (stripe a) (h (stripe a) ∙ mine),
            insert_read_held (stripe a) held mine,
          )
          (alone-lock_write_set ws held s h)
  | inr free ↦
      alone-bind (lock (stripe a)) _ (calm s)
      ∙ rw (alone-lock_free (stripe a) s (h (stripe a) ∙ free)) (
          alone-lock_write_set ws (insert_read (stripe a) held)
            (record s { locks = take s.locks (stripe a) })
            (take-HoldsOnly s.locks (stripe a) held h))
]

-- The stripes of the addresses of a write set.
unfoldable pub covers : ℕ → List Entry → Bool
covers l [] = false
covers l ((a, bs) ∷ ws) = l == stripe a || covers l ws

has-insert_read : (l k : ℕ) (held : List ℕ) → has l (insert_read k held) ≡ (has l held || l == k)
unfolding insert_read has
has-insert_read l k held = ground arith

pub has-hold :
    (l : ℕ) (ws : List Entry) (held : List ℕ) → has l (hold ws held) ≡ (has l held || covers l ws)
unfolding hold covers
has-hold l [] held = ground arith
has-hold l ((a, bs) ∷ ws) held =
    has-hold l ws (insert_read (stripe a) held)
    ∙ rw (has-insert_read l (stripe a) held) (or_assoc (has l held) (l == stripe a) (covers l ws))

pub take_all-at :
    (ws : List Entry) (f : Words) (l : ℕ)
    → take_all ws f l ≡ (if covers l ws then locked_word (expected_word (f l)) else f l)
unfolding take_all take covers locked_word expected_word
take_all-at [] f l = refl
take_all-at ((a, bs) ∷ ws) f l = take_all-at ws (take f (stripe a)) l ∙ ground arith

pub version_of-take_all :
    (ws : List Entry) (f : Words) (l : ℕ) → version_of (take_all ws f l) ≡ version_of (f l)
version_of-take_all ws f l = ground (arith, take_all-at ws f l, locked_version (f l))

unfoldable pub give : Words → ℕ → Words
give f l = update f l (unlocked_word (f l))

unfoldable pub give_all : List ℕ → Words → Words
give_all [] f = f
give_all (l ∷ ls) f = give_all ls (give f l)

pub alone-unlock_all :
    (ls : List ℕ) (s : State)
    → alone (unlock_all ls) s ≡ (tt, record s { locks = give_all ls s.locks })
unfolding unlock_all unlock give_all give exec
alone-unlock_all [] s = refl
alone-unlock_all (l ∷ ls) s = alone-unlock_all ls (record s { locks = give s.locks l })

give_all-at :
    (ls : List ℕ) (f : Words) (l : ℕ)
    → give_all ls f l ≡ (if has l ls then unlocked_word (f l) else f l)
unfolding give_all give has unlocked_word
give_all-at [] f l = refl
give_all-at (k ∷ ls) f l = give_all-at ls (give f k) l ∙ ground arith

relocked :
    (w : ℕ)
    → is_locked_word w ≡ false
    → version_of w < 2 ^ 31
    → unlocked_word (locked_word (expected_word w)) ≡ w
unfolding is_locked_word version_of unlocked_word locked_word expected_word
relocked w e h = ground arith

-- Taking the locks of a write set and giving them back leaves every word as it was, while the
-- versions fit in 31 bits.
pub give_all-take_all :
    (ws : List Entry) (f : Words)
    → HoldsOnly [] f
    → ((l : ℕ) → version_of (f l) < 2 ^ 31)
    → give_all (hold ws []) (take_all ws f) ≡ f
unfolding has
give_all-take_all ws f free small = fun_ext λ l. ground (
  arith,
  give_all-at (hold ws []) (take_all ws f) l,
  has-hold l ws [],
  take_all-at ws f l,
  relocked (f l) (free l) (small l),
)

-- No address of the read set has a version above `rv`.
unfoldable pub all_fresh : List ℕ → Words → ℕ → Bool
all_fresh [] f rv = true
all_fresh (a ∷ rs) f rv = not (ltb rv (version_of (f (stripe a)))) && all_fresh rs f rv

stale_branch :
    (locked : Bool) (rv a : ℕ) (s : State)
    → locked ≡ false
    → alone
        (if locked then ret true else (get_version (stripe a) >>= λ version. ret (ltb rv version)))
        s
      ≡ (ltb rv (version_of (s.locks (stripe a))), s)
unfolding get_version exec
stale_branch true rv a s e = cc
stale_branch false rv a s e = refl

alone-is_stale :
    (held : List ℕ) (rv a : ℕ) (s : State)
    → HoldsOnly held s.locks
    → alone (is_stale held rv a) s ≡ (ltb rv (version_of (s.locks (stripe a))), s)
unfolding is_stale is_locked get_version exec
alone-is_stale held rv a s h = elim (Bool-cases (has (stripe a) held)) [
  | inl mine ↦ rw mine refl
  | inr free ↦
      rw free (stale_branch (is_locked_word (s.locks (stripe a))) rv a s (h (stripe a) ∙ free))
]

validate_branch :
    (stale : Bool) (rest : Tm Bool) (s : State) (b : Bool)
    → alone rest s ≡ (b, s)
    → alone (if stale then ret false else rest) s ≡ (not stale && b, s)
validate_branch true rest s b h = refl
validate_branch false rest s b h = h

-- Beside locks of its own only, a transaction fails in (5) exactly if a version is above `rv`.
pub alone-validate :
    (rs held : List ℕ) (rv : ℕ) (s : State)
    → HoldsOnly held s.locks
    → alone (validate rs held rv) s ≡ (all_fresh rs s.locks rv, s)
unfolding validate all_fresh
alone-validate [] held rv s h = refl
alone-validate (a ∷ rs) held rv s h =
    alone-bind (is_stale held rv a) _ s
    ∙ rw (alone-is_stale held rv a s h) (
        validate_branch (ltb rv (version_of (s.locks (stripe a)))) _ s _
          (alone-validate rs held rv s h))

pub all_fresh-take_all :
    (rs : List ℕ) (ws : List Entry) (f : Words) (rv : ℕ)
    → all_fresh rs (take_all ws f) rv ≡ all_fresh rs f rv
unfolding all_fresh
all_fresh-take_all [] ws f rv = refl
all_fresh-take_all (a ∷ rs) ws f rv =
    rw (version_of-take_all ws f (stripe a), all_fresh-take_all rs ws f rv)
