-- ===== src/Stm/Clock/Calls.antt =====
-- Every call of the interface keeps the version clock, whatever the other threads do meanwhile.
use performant_transactional.Base.{
  ℕ, ◌+◌, ◌%◌, ◌≤◌, Bool, Option, none, some, arith, List, [], ◌∷◌, ◌==◌, has, length,
}
use performant_transactional.Process.{Prog, ret, act, interleave}
use performant_transactional.Process.Rely.{start-IsSound, interleave-IsSound}
use performant_transactional.Stm.State.{null, word_mod, State, Act, exec}
use performant_transactional.Stm.Lock.{stripe}
use performant_transactional.Stm.Transaction.{Entry, Transaction, find, delete_txn, tm_begin}
use performant_transactional.Stm.Access.{
  Private, give_up, read_value, read_word_ro, read_word_rw, read_word, read_words, tm_read,
  tm_write, tm_alloc, tm_free,
}
use performant_transactional.Stm.Commit.{
  unlock_all, lock_write_set, is_stale, validate, write_back, abort, publish, commit, end_rw,
  end_ro, tm_end,
}
use performant_transactional.Stm.Client.{
  Call, begins, ends, reads, writes, allocs, frees, Answer, perform, serve,
}
use performant_transactional.Stm.Clock.{IsTimely, clock}
use performant_transactional.Stm.Clock.Actions.{
  Keeps, Always, act-Keeps, bind-Keeps, seq-Keeps, done, if-Keeps, Bool-Keeps, Option-Keeps,
  since-Keeps, load_bytes-Keeps, store_bytes-Keeps, clear_bytes-Keeps, release_all-Keeps,
  lock-Keeps, unlock-Keeps, get_version-Keeps, is_locked-Keeps, set_version-Keeps,
}

module _ (i : ℕ) where
  delete_txn-Keeps : (txn : Transaction) (s : State) → Keeps i (delete_txn txn) Always s
  unfolding delete_txn
  delete_txn-Keeps txn s =
      seq-Keeps i (release_all-Keeps i txn.seg_list s) λ _ t. act-Keeps i λ _ u r inv. (tt, done i)

  tm_begin-Keeps : (is_ro : Bool) (s : State) → Keeps i (tm_begin is_ro) Always s
  unfolding tm_begin
  tm_begin-Keeps is_ro s = act-Keeps i λ _ t r inv. (
    tt,
    if-Keeps i ((exec Act.allocate t).0 == null) (done i) (act-Keeps i λ _ u q v. (tt, done i)),
  )

  give_up-Keeps : (txn : Transaction) (m : Private) (s : State) → Keeps i (give_up txn m) Always s
  unfolding give_up
  give_up-Keeps txn m s = seq-Keeps i (delete_txn-Keeps txn s) λ _ t. done i

  read_word_ro-Keeps :
      (w : ℕ) (txn : Transaction) (source target : ℕ) (m : Private) (s : State)
      → Keeps i (read_word_ro w txn source target m) Always s
  unfolding read_word_ro
  read_word_ro-Keeps w txn source target m s = seq-Keeps i (get_version-Keeps i _ s) λ version t.
      seq-Keeps i (is_locked-Keeps i _ t) λ locked t. if-Keeps i _ (give_up-Keeps txn m t) (
        seq-Keeps i (load_bytes-Keeps i source w t) λ bs t.
          seq-Keeps i (get_version-Keeps i _ t) λ new_version t.
            seq-Keeps i (is_locked-Keeps i _ t)
              λ locked' t. if-Keeps i _ (give_up-Keeps txn _ t) (done i))

  read_value-Keeps :
      (w : ℕ) (own : Option (List ℕ)) (source : ℕ) (s : State)
      → Keeps i (read_value w own source) Always s
  unfolding read_value
  read_value-Keeps w (some bs) source s = done i
  read_value-Keeps w none source s = load_bytes-Keeps i source w s

  read_word_rw-Keeps :
      (w : ℕ) (txn : Transaction) (source target : ℕ) (m : Private) (s : State)
      → Keeps i (read_word_rw w txn source target m) Always s
  unfolding read_word_rw
  read_word_rw-Keeps w txn source target m s = seq-Keeps i (get_version-Keeps i _ s) λ version t.
      seq-Keeps i (is_locked-Keeps i _ t) λ locked t. if-Keeps i _ (give_up-Keeps txn m t) (
        seq-Keeps i (read_value-Keeps w (find source txn.write_set) source t) λ bs t.
          seq-Keeps i (get_version-Keeps i _ t) λ new_version t.
            seq-Keeps i (is_locked-Keeps i _ t)
              λ locked' t. if-Keeps i _ (give_up-Keeps txn _ t) (done i))

  read_words-Keeps :
      (w : ℕ) (is : List ℕ) (txn : Transaction) (source target : ℕ) (m : Private) (s : State)
      → Keeps i (read_words w is txn source target m) Always s
  unfolding read_words read_word
  read_words-Keeps w [] txn source target m s = done i
  read_words-Keeps w (k ∷ is) txn source target m s =
      seq-Keeps i
        (if-Keeps i txn.is_ro (read_word_ro-Keeps w txn _ _ m s) (read_word_rw-Keeps w txn _ _ m s))
        λ r t. Option-Keeps i r.0 (done i) (λ txn'. read_words-Keeps w is txn' source target r.1 t)

  tm_alloc-Keeps :
      (txn : Transaction) (size target : ℕ) (s : State)
      → Keeps i (tm_alloc txn size target) Always s
  unfolding tm_alloc
  tm_alloc-Keeps txn size target s = act-Keeps i λ _ t r inv. (
    tt,
    if-Keeps i ((exec Act.allocate t).0 == null) (done i)
        (seq-Keeps i (clear_bytes-Keeps i _ size _) λ _ u. done i),
  )

  unlock_all-Keeps : (ls : List ℕ) (s : State) → Keeps i (unlock_all ls) Always s
  unfolding unlock_all
  unlock_all-Keeps [] s = done i
  unlock_all-Keeps (l ∷ ls) s = seq-Keeps i (unlock-Keeps i l s) λ _ t. unlock_all-Keeps ls t

  lock_write_set-Keeps :
      (ws : List Entry) (held : List ℕ) (s : State) → Keeps i (lock_write_set ws held) Always s
  unfolding lock_write_set
  lock_write_set-Keeps [] held s = done i
  lock_write_set-Keeps ((a, bs) ∷ ws) held s = seq-Keeps i (lock-Keeps i _ s) λ taken t.
      Bool-Keeps i taken (lock_write_set-Keeps ws _ t)
        (if-Keeps i (has (stripe a) held) (lock_write_set-Keeps ws _ t) (done i))

  is_stale-Keeps : (held : List ℕ) (rv a : ℕ) (s : State) → Keeps i (is_stale held rv a) Always s
  unfolding is_stale
  is_stale-Keeps held rv a s =
      seq-Keeps i (if-Keeps i (has (stripe a) held) (done i) (is_locked-Keeps i _ s)) λ locked t.
        if-Keeps i locked (done i) (seq-Keeps i (get_version-Keeps i _ t) λ version u. done i)

  validate-Keeps : (rs held : List ℕ) (rv : ℕ) (s : State) → Keeps i (validate rs held rv) Always s
  unfolding validate
  validate-Keeps [] held rv s = done i
  validate-Keeps (a ∷ rs) held rv s =
      seq-Keeps i (is_stale-Keeps held rv a s)
        λ stale t. if-Keeps i stale (done i) (validate-Keeps rs held rv t)

  -- The one place where a version is written: it is not ahead of the clock.
  write_back-Keeps :
      (ws : List Entry) (wv : ℕ) (s : State) → wv ≤ s.gvc → Keeps i (write_back ws wv) Always s
  unfolding write_back
  write_back-Keeps [] wv s le = done i
  write_back-Keeps ((a, bs) ∷ ws) wv s le =
      bind-Keeps i (since-Keeps i wv le (store_bytes-Keeps i a bs s)) λ _ t (_, le').
        bind-Keeps i (since-Keeps i wv le' (set_version-Keeps i _ wv t le'))
          λ _ u (_, le''). write_back-Keeps ws wv u le''

  abort-Keeps : (txn : Transaction) (held : List ℕ) (s : State) → Keeps i (abort txn held) Always s
  unfolding abort
  abort-Keeps txn held s =
      seq-Keeps i (unlock_all-Keeps held s)
        λ _ t. seq-Keeps i (delete_txn-Keeps txn t) λ _ u. done i

  publish-Keeps :
      (txn : Transaction) (wv : ℕ) (s : State) → wv ≤ s.gvc → Keeps i (publish txn wv) Always s
  unfolding publish
  publish-Keeps txn wv s le =
      seq-Keeps i (write_back-Keeps txn.write_set wv s le)
        λ _ t. act-Keeps i λ _ u r inv. (tt, seq-Keeps i (delete_txn-Keeps _ _) λ _ v. done i)

  commit-Keeps :
      (txn : Transaction) (held : List ℕ) (s : State) → Keeps i (commit txn held) Always s
  unfolding commit exec
  commit-Keeps txn held s = act-Keeps i λ _ t r inv. (
    omega arith,
    bind-Keeps i
        (since-Keeps i ((t.gvc + 1) % word_mod) (omega arith)
          (if-Keeps i _ (done i) (validate-Keeps txn.read_set held txn.rv _)))
        λ valid u (_, le). if-Keeps i valid (publish-Keeps txn _ u le) (abort-Keeps txn held u),
  )

  tm_end-Keeps : (txn : Transaction) (s : State) → Keeps i (tm_end txn) Always s
  unfolding tm_end end_rw end_ro
  tm_end-Keeps txn s = if-Keeps i txn.is_ro (seq-Keeps i (delete_txn-Keeps txn s) λ _ t. done i) (
      seq-Keeps i (lock_write_set-Keeps txn.write_set [] s)
        λ r t. if-Keeps i r.0 (commit-Keeps txn r.1 t) (abort-Keeps txn r.1 t))

  perform-Keeps : (c : Call) (s : State) → Keeps i (perform c) Always s
  unfolding perform tm_read tm_write tm_free
  perform-Keeps (begins is_ro) s = tm_begin-Keeps is_ro s
  perform-Keeps (ends txn) s = tm_end-Keeps txn s
  perform-Keeps (reads region txn source size target m) s =
      read_words-Keeps _ _ txn source target m s
  perform-Keeps (writes region txn m source size target) s = done i
  perform-Keeps (allocs txn size target) s = tm_alloc-Keeps txn size target s
  perform-Keeps (frees txn target) s = done i

  serve-Keeps : {A : Type 0} (p : Prog Call Answer A) (s : State) → Keeps i (serve p) Always s
  unfolding serve
  serve-Keeps (ret a) s = done i
  serve-Keeps (act c k) s = seq-Keeps i (perform-Keeps c s) λ r t. serve-Keeps (k r) t

-- Whatever the threads call, and in whatever order their actions fall: as long as fewer turns are
-- made than the clock has room for, no lock is ever at a version ahead of the clock.
pub serve-IsTimely :
    {A : Type 0} (clients : ℕ → Prog Call Answer A) (s : State) (is : List ℕ)
    → IsTimely (length is) s
    → IsTimely 0
        (interleave (λ _. exec) is (record { shared = s; threads = λ i. serve (clients i) })).shared
serve-IsTimely clients s is v =
    (interleave-IsSound (λ _. exec) clock (λ _. Always) is _
      (start-IsSound (λ _. exec) clock (λ _. Always) (length is) _ v
        (λ i. (serve-Keeps i (clients i) s).meets))).inv
