-- ===== src/Stm/Alone/Reading.antt =====
-- tm_read run alone: the two checks of each word come down to one.
use performant_transactional.Base.{
  ℕ, ◌+◌, ◌≡◌, refl, Option, none, some, List, [], ◌∷◌, arith, ◌==◌, if◌then◌else◌, ◌∙◌, ap, Bool,
  true, false, ◌||◌, not, ltb, has,
}
use performant_transactional.Process.{ret, ◌>>=◌}
use performant_transactional.Stm.State.{State, exec, Tm, load_bytes}
use performant_transactional.Stm.Lock.{stripe, version_of, is_locked_word, get_version, is_locked}
use performant_transactional.Stm.Region.{MemoryRegion, tm_align}
use performant_transactional.Stm.Transaction.{Transaction, find, insert_read, delete_txn}
use performant_transactional.Stm.Access.{
  Private, Continued, take_bytes, put_bytes, give_up, read_value, read_word_ro, read_word_rw,
  read_word, read_words, tm_read,
}
use performant_transactional.Stm.Access.Offsets.{offsets}
use performant_transactional.Stm.Alone.{alone, alone-bind, alone-then}
use performant_transactional.Stm.Alone.Bytes.{alone-load_bytes}
use performant_transactional.Stm.Alone.Locking.{HoldsOnly}
use performant_transactional.Stm.Alone.Ending.{deleted, alone-delete_txn}
use performant_transactional.Stm.Alone.Words.{seen}

-- The word that a transaction finds at an address.
unfoldable pub found : ℕ → Transaction → State → ℕ → List ℕ
found w txn s a = if txn.is_ro then take_bytes s.mem a w else seen w txn.write_set s.mem a

-- A read-write transaction remembers what it read.
unfoldable pub note : Transaction → ℕ → Transaction
note txn a = if txn.is_ro then txn else record txn { read_set = insert_read a txn.read_set }

-- One word in one step: it fails exactly if the word is newer than the transaction.
unfoldable pub read_step : ℕ → Transaction → ℕ → ℕ → Private → State → Continued × State
read_step w txn source target m s =
    if ltb txn.rv (version_of (s.locks (stripe source)))
    then ((none, m), deleted txn s)
    else ((some (note txn source), put_bytes m target (found w txn s source)), s)

alone-give_up :
    (txn : Transaction) (m : Private) (s : State)
    → alone (give_up txn m) s ≡ ((none, m), deleted txn s)
unfolding give_up
alone-give_up txn m s = alone-bind (delete_txn txn) _ s ∙ rw (alone-delete_txn txn s) refl

alone-read_value :
    (w : ℕ) (own : Option (List ℕ)) (a : ℕ) (s : State)
    → alone (read_value w own a) s ≡ (elim own [ none ↦ take_bytes s.mem a w | some bs ↦ bs ], s)
unfolding read_value
alone-read_value w (some bs) a s = refl
alone-read_value w none a s = alone-load_bytes a w s

alone-if :
    {A : Type 0} (b : Bool) (x y : Tm A) (s : State) (r r' : A × State)
    → alone x s ≡ r
    → (b ≡ false → alone y s ≡ r')
    → alone (if b then x else y) s ≡ (if b then r else r')
alone-if true x y s r r' h g = h
alone-if false x y s r r' h g = g refl

module _ (txn : Transaction) (m : Private) (l : ℕ) (s : State)
    (free : is_locked_word (s.locks l) ≡ false) where
  version : ℕ
  version = version_of (s.locks l)

  -- The checks before and after a copy `x`, on an unlocked word that nobody changes.
  alone-checks :
      (x : Tm (List ℕ)) (bs : List ℕ) (m' : List ℕ → Private) (txn' : Transaction)
      (fails : Bool → ℕ → ℕ → Bool)
      → alone x s ≡ (bs, s)
      → (ltb txn.rv version ≡ false → fails (is_locked_word (s.locks l)) version version ≡ false)
      → alone
          (get_version l >>= λ v. is_locked l >>= λ locked.
            if locked || ltb txn.rv v
            then give_up txn m
            else (x >>= λ bs. get_version l >>= λ v'. is_locked l >>= λ locked'.
                if fails locked' v' v then give_up txn (m' bs) else ret (some txn', m' bs)))
          s
        ≡ (if ltb txn.rv version then ((none, m), deleted txn s) else ((some txn', m' bs), s))
  unfolding get_version is_locked exec version
  alone-checks x bs m' txn' fails e h =
      alone-if (is_locked_word (s.locks l) || ltb txn.rv version) _ _ s _ _ (alone-give_up txn m s)
        (λ early.
          alone-bind x _ s
          ∙ rw e (
              alone-if _ _ _ s _ ((some txn', m' bs), s) (alone-give_up txn (m' bs) s) (λ _. refl)
              ∙ ap (λ b. if b then ((none, m' bs), deleted txn s) else ((some txn', m' bs), s))
                  (h (ground (arith, early, free)))))
      ∙ ap
          (λ b.
            if b || ltb txn.rv version then ((none, m), deleted txn s) else ((some txn', m' bs), s))
          free

module _ (w : ℕ) (txn : Transaction) (source target : ℕ) (m : Private) (s : State)
    (free : is_locked_word (s.locks (stripe source)) ≡ false) where
  read_word_cases :
      (is_ro : Bool)
      → alone
          (if is_ro then read_word_ro w txn source target m else read_word_rw w txn source target m)
          s
        ≡ (if ltb txn.rv (version_of (s.locks (stripe source)))
            then ((none, m), deleted txn s)
            else (
              (
                some (
                    if is_ro
                    then txn
                    else record txn { read_set = insert_read source txn.read_set }),
                put_bytes m target (
                    if is_ro then take_bytes s.mem source w else seen w txn.write_set s.mem source),
              ),
              s,
            ))
  unfolding read_word_ro read_word_rw version seen
  read_word_cases true =
      alone-checks txn m (stripe source) s free (load_bytes source w) _ (put_bytes m target) txn
        (λ locked v' v. locked || not (v' == v) || ltb txn.rv v') (alone-load_bytes source w s)
        (λ e. ground (arith, free))
  read_word_cases false =
      alone-checks txn m (stripe source) s free (read_value w (find source txn.write_set) source) _
        (put_bytes m target) (record txn { read_set = insert_read source txn.read_set })
        (λ locked v' v. locked || not (v' == v))
        (alone-read_value w (find source txn.write_set) source s) (λ e. ground (arith, free))

  alone-read_word : alone (read_word w txn source target m) s ≡ read_step w txn source target m s
  unfolding read_word read_step note found
  alone-read_word = read_word_cases txn.is_ro

-- The loop of tm_read, one word after the other, up to the first that is too new.
unfoldable pub read_steps : ℕ → List ℕ → Transaction → ℕ → ℕ → Private → State → Continued × State
read_steps w [] txn source target m s = ((some txn, m), s)
read_steps w (i ∷ is) txn source target m s =
    if ltb txn.rv (version_of (s.locks (stripe (source + i))))
    then ((none, m), deleted txn s)
    else read_steps w is (note txn (source + i)) source target
        (put_bytes m (target + i) (found w txn s (source + i))) s

-- The loop stops at a word that fails, and goes on after any other.
alone-continue :
    (x : Tm Continued) (k : Transaction → Private → Tm Continued) (old : Bool) (m m' : Private)
    (txn' : Transaction) (s t : State) (r : Continued × State)
    → alone x s ≡ (if old then ((none, m), t) else ((some txn', m'), s))
    → alone (k txn' m') s ≡ r
    → alone (x >>= λ c. elim (c.0) [ none ↦ ret (none, c.1) | some txn' ↦ k txn' c.1 ]) s
      ≡ (if old then ((none, m), t) else r)
alone-continue x k true m m' txn' s t r e h = alone-then x _ s t (none, m) _ e refl
alone-continue x k false m m' txn' s t r e h = alone-then x _ s s (some txn', m') _ e h

alone-read_words :
    (w : ℕ) (is : List ℕ) (txn : Transaction) (source target : ℕ) (m : Private) (s : State)
    → HoldsOnly [] s.locks
    → alone (read_words w is txn source target m) s ≡ read_steps w is txn source target m s
unfolding read_words read_steps has read_step
alone-read_words w [] txn source target m s free = refl
alone-read_words w (i ∷ is) txn source target m s free =
    alone-continue (read_word w txn (source + i) (target + i) m)
      (λ txn' m'. read_words w is txn' source target m') _ _ _ _ s _ _
      (alone-read_word w txn (source + i) (target + i) m s (free (stripe (source + i))))
      (alone-read_words w is (note txn (source + i)) source target
        (put_bytes m (target + i) (found w txn s (source + i))) s free)

-- While no lock is held, tm_read run alone returns, and does what `read_steps` says: it fails
-- exactly at the first word that is newer than the transaction.
pub tm_read-read_steps :
    (region : MemoryRegion) (txn : Transaction) (source size target : ℕ) (m : Private) (s : State)
    → HoldsOnly [] s.locks
    → alone (tm_read region txn source size target m) s
      ≡ read_steps (tm_align region) (offsets size (tm_align region)) txn source target m s
unfolding tm_read
tm_read-read_steps region txn source size target m s free =
    alone-read_words (tm_align region) (offsets size (tm_align region)) txn source target m s free
