-- ===== src/Stm/Alone/Ending.antt =====
-- tm_end run alone: one step that commits or aborts, stated without the loops and the locks.
use mathlib.Core.Path.{fun_ext}
use performant_transactional.Base.{
  ℕ, ◌+◌, ◌<◌, ◌%◌, ◌^◌, ◌≡◌, refl, List, [], ◌∷◌, ◌++◌, arith, ◌==◌, if◌then◌else◌, ◌∙◌, Bool,
  true, false, ◌||◌,
}
use performant_transactional.Process.{ret, update}
use performant_transactional.Stm.State.{word_mod, State, exec, store_bytes, release_all}
use performant_transactional.Stm.Lock.{stripe, version_of, version_word, set_version}
use performant_transactional.Stm.Transaction.{Entry, Transaction, delete_txn}
use performant_transactional.Stm.Access.{Private, put_bytes}
use performant_transactional.Stm.Commit.{
  unlock_all, lock_write_set, validate, write_back, abort, publish, commit, end_rw, end_ro, tm_end,
}
use performant_transactional.Stm.Alone.{alone, alone-bind}
use performant_transactional.Stm.Alone.Bytes.{
  alone-store_bytes, log_free, log_all, exec-release, alone-release_all,
}
use performant_transactional.Stm.Alone.Locking.{
  calm, Words, HoldsOnly, take_all, hold, covers, alone-lock_write_set, take_all-at, give_all,
  alone-unlock_all, give_all-take_all, all_fresh, alone-validate, take_all-HoldsOnly,
  all_fresh-take_all,
}

-- Shared memory after the writes of a transaction.
unfoldable pub store_all : List Entry → Private → Private
store_all [] m = m
store_all ((a, bs) ∷ ws) m = store_all ws (put_bytes m a bs)

-- The words of the locks after the release of a write set at a version.
unfoldable pub release_stripes : List Entry → ℕ → Words → Words
release_stripes [] wv f = f
release_stripes ((a, bs) ∷ ws) wv f = release_stripes ws wv (update f (stripe a) (version_word wv))

pub alone-write_back :
    (ws : List Entry) (wv : ℕ) (s : State)
    → alone (write_back ws wv) s
      ≡ (tt, record s { mem = store_all ws s.mem; locks = release_stripes ws wv s.locks })
unfolding write_back store_all release_stripes set_version exec
alone-write_back [] wv s = refl
alone-write_back ((a, bs) ∷ ws) wv s =
    alone-bind (store_bytes a bs) _ s ∙ rw (alone-store_bytes a bs s) (alone-write_back ws wv _)

-- What `delete txn` leaves: the segments that the transaction still has, and itself, are freed.
unfoldable pub deleted : Transaction → State → State
deleted txn s = record s { freed = log_free txn.self (log_all txn.seg_list s.freed) }

pub alone-delete_txn :
    (txn : Transaction) (s : State) → alone (delete_txn txn) s ≡ (tt, deleted txn s)
unfolding delete_txn deleted
alone-delete_txn txn s =
    alone-bind (release_all txn.seg_list) _ s
    ∙ rw (alone-release_all txn.seg_list s, exec-release) refl

-- The write version that a commit takes in state `s`.
abbrev pub next_version : State → ℕ
next_version s = (s.gvc + 1) % word_mod

-- The state after a commit: the clock has moved on, the bytes and the versions of the write set
-- are in place, its segments belong to the region, and only the transaction itself is freed.
unfoldable pub committed : Transaction → State → State
committed txn s =
    deleted (record txn { seg_list = [] })
      (record s {
        gvc = next_version s;
        mem = store_all txn.write_set s.mem;
        locks = release_stripes txn.write_set (next_version s) s.locks;
        seg_list = s.seg_list ++ txn.seg_list;
      })

-- Whether nothing read has changed since `rv`: nobody else took a version, or all are fresh.
unfoldable pub is_valid : Transaction → State → Bool
is_valid txn s = (txn.rv + 1) % word_mod == next_version s || all_fresh txn.read_set s.locks txn.rv

-- tm_end as one step. A failed attempt moves the clock and changes nothing else that is shared.
unfoldable pub end_step : Transaction → State → Bool × State
end_step txn s =
    if txn.is_ro
    then (true, deleted txn s)
    else if is_valid txn s
    then (true, committed txn s)
    else (false, deleted txn (record s { gvc = next_version s }))

release_stripes-at :
    (ws : List Entry) (wv : ℕ) (f : Words) (l : ℕ)
    → release_stripes ws wv f l ≡ (if covers l ws then version_word wv else f l)
unfolding release_stripes covers
release_stripes-at [] wv f l = refl
release_stripes-at ((a, bs) ∷ ws) wv f l =
    release_stripes-at ws wv (update f (stripe a) (version_word wv)) l ∙ ground arith

-- Every lock that was taken is released at the new version.
release_stripes-take_all :
    (ws : List Entry) (wv : ℕ) (f : Words)
    → release_stripes ws wv (take_all ws f) ≡ release_stripes ws wv f
release_stripes-take_all ws wv f = fun_ext λ l. ground (
  arith,
  release_stripes-at ws wv (take_all ws f) l,
  release_stripes-at ws wv f l,
  take_all-at ws f l,
)

alone-publish :
    (txn : Transaction) (wv : ℕ) (s : State)
    → alone (publish txn wv) s ≡ (
      true,
      deleted
          (record txn { seg_list = [] })
          (record s {
            mem = store_all txn.write_set s.mem;
            locks = release_stripes txn.write_set wv s.locks;
            seg_list = s.seg_list ++ txn.seg_list;
          }),
    )
unfolding publish exec
alone-publish txn wv s =
    alone-bind (write_back txn.write_set wv) _ s
    ∙ rw (alone-write_back txn.write_set wv s) (
        alone-bind (delete_txn (record txn { seg_list = [] })) _ _
        ∙ rw (alone-delete_txn (record txn { seg_list = [] })) refl)

alone-abort :
    (txn : Transaction) (held : List ℕ) (s : State)
    → alone (abort txn held) s ≡ (false, deleted txn (record s { locks = give_all held s.locks }))
unfolding abort
alone-abort txn held s =
    alone-bind (unlock_all held) _ s
    ∙ rw (alone-unlock_all held s)
        (alone-bind (delete_txn txn) _ _ ∙ rw (alone-delete_txn txn) refl)

alone-check :
    (same : Bool) (rs held : List ℕ) (rv : ℕ) (s : State)
    → HoldsOnly held s.locks
    → alone (if same then ret true else validate rs held rv) s
      ≡ (same || all_fresh rs s.locks rv, s)
alone-check true rs held rv s h = refl
alone-check false rs held rv s h = alone-validate rs held rv s h

-- The state in which the commit starts: the locks of the write set are taken.
abbrev locked : Transaction → State → State
locked txn s = calm (record s { locks = take_all txn.write_set s.locks })

module _ (txn : Transaction) (s : State) (free : HoldsOnly [] s.locks)
    (small : (l : ℕ) → version_of (s.locks l) < 2 ^ 31) where
  held : List ℕ
  held = hold txn.write_set []

  conclude :
      (valid : Bool)
      → alone
          (if valid then publish txn (next_version s) else abort txn held)
          (record (locked txn s) { gvc = next_version s })
        ≡ (if valid
            then (true, committed txn (calm s))
            else (false, deleted txn (record (calm s) { gvc = next_version s })))
  unfolding committed held
  conclude true =
      alone-publish txn (next_version s) _
      ∙ rw (release_stripes-take_all txn.write_set (next_version s) s.locks) refl
  conclude false =
      alone-abort txn held _ ∙ rw (give_all-take_all txn.write_set s.locks free small) refl

  alone-commit : alone (commit txn held) (locked txn s) ≡ (
      if is_valid txn (calm s)
      then (true, committed txn (calm s))
      else (false, deleted txn (record (calm s) { gvc = next_version s })))
  unfolding commit exec is_valid held
  alone-commit =
      alone-bind
        (if (txn.rv + 1) % word_mod == next_version s
          then ret true
          else validate txn.read_set held txn.rv)
        _ (record (locked txn s) { gvc = next_version s })
      ∙ rw
          (
            alone-check _ txn.read_set held txn.rv (record (locked txn s) { gvc = next_version s })
                (take_all-HoldsOnly txn.write_set s.locks [] free),
            all_fresh-take_all txn.read_set txn.write_set s.locks txn.rv,
          )
          (conclude _)

  end_branch :
      (is_ro : Bool)
      → alone (if is_ro then end_ro txn else end_rw txn) (calm s) ≡ (
          if is_ro
          then (true, deleted txn (calm s))
          else if is_valid txn (calm s)
          then (true, committed txn (calm s))
          else (false, deleted txn (record (calm s) { gvc = next_version s })))
  unfolding end_ro end_rw held
  end_branch true = alone-bind (delete_txn txn) _ (calm s) ∙ rw (alone-delete_txn txn (calm s)) refl
  end_branch false =
      alone-bind (lock_write_set txn.write_set []) _ (calm s)
      ∙ rw (alone-lock_write_set txn.write_set [] s free) alone-commit

  -- While no lock is held, no exchange fails for no reason and the versions fit in 31 bits, tm_end
  -- run alone returns, and does what `end_step` says.
  pub tm_end-end_step : alone (tm_end txn) (calm s) ≡ end_step txn (calm s)
  unfolding tm_end end_step
  tm_end-end_step = end_branch txn.is_ro
