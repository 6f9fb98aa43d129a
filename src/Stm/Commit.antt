-- ===== src/Stm/Commit.antt =====
-- tm_end of 394984/tm.cpp: lock the write set, step the clock, validate, write back, release.
use performant_transactional.Base.{
  ℕ, ◌+◌, ◌%◌, Bool, true, false, List, [], ◌∷◌, ◌==◌, ltb, if◌then◌else◌, has,
}
use performant_transactional.Process.{◌>>=◌, ◌>>◌}
use performant_transactional.Stm.State.{word_mod, add_gvc, splice, Tm, pure, ask, store_bytes}
use performant_transactional.Stm.Lock.{stripe, lock, unlock, get_version, is_locked, set_version}
use performant_transactional.Stm.Transaction.{Entry, Transaction, insert_read, delete_txn}

-- `for (auto lock : locks_held) lock->unlock();`
unfoldable pub unlock_all : List ℕ → Tm (Unit {0})
unlock_all [] = pure tt
unlock_all (l ∷ ls) = do unlock l; unlock_all ls

-- (3) Whether every lock was taken, and the locks held at the end of the loop.
unfoldable pub lock_write_set : List Entry → List ℕ → Tm (Bool × List ℕ)
lock_write_set [] held = pure (true, held)
lock_write_set ((a, bs) ∷ ws) held = do
  let l = stripe a
  taken ← lock l
  elim taken [
    | true ↦ lock_write_set ws (insert_read l held)
    | false ↦ if has l held then lock_write_set ws (insert_read l held) else pure (false, held)
  ]

-- The test of (5) for one address of the read set. `||` and `&&` call no more than they need.
unfoldable pub is_stale : List ℕ → ℕ → ℕ → Tm Bool
is_stale held rv a = do
  let l = stripe a
  locked ← if has l held then pure false else is_locked l
  if locked then pure true else (do version ← get_version l; pure (ltb rv version))

-- (5) Whether the read set is still valid.
unfoldable pub validate : List ℕ → List ℕ → ℕ → Tm Bool
validate [] held rv = pure true
validate (a ∷ rs) held rv = do
  stale ← is_stale held rv a
  if stale then pure false else validate rs held rv

-- (6) Copy and release, word by word.
unfoldable pub write_back : List Entry → ℕ → Tm (Unit {0})
write_back [] wv = pure tt
write_back ((a, bs) ∷ ws) wv = do store_bytes a bs; set_version (stripe a) wv; write_back ws wv

-- The transaction fails: unlock what is held, and delete it.
unfoldable pub abort : Transaction → List ℕ → Tm Bool
abort txn held = do unlock_all held; delete_txn txn; pure false

-- (6) The transaction succeeds: `splice` leaves its own list of segments empty.
unfoldable pub publish : Transaction → ℕ → Tm Bool
publish txn wv = do
  write_back txn.write_set wv
  ask (splice txn.seg_list)
  delete_txn (record txn { seg_list = [] })
  pure true

-- (4) and (5), with all locks held.
unfoldable pub commit : Transaction → List ℕ → Tm Bool
commit txn held = do
  old ← ask (add_gvc 1)
  let wv = (old + 1) % word_mod
  valid ← if (txn.rv + 1) % word_mod == wv then pure true else validate txn.read_set held txn.rv
  if valid then publish txn wv else abort txn held

unfoldable pub end_rw : Transaction → Tm Bool
end_rw txn = do
  (taken, held) ← lock_write_set txn.write_set []
  if taken then commit txn held else abort txn held

unfoldable pub end_ro : Transaction → Tm Bool
end_ro txn = do delete_txn txn; pure true

unfoldable pub tm_end : Transaction → Tm Bool
tm_end txn = if txn.is_ro then end_ro txn else end_rw txn
