-- ===== src/Stm/Alone/Bytes.antt =====
-- The byte loops and the loop of `free`, run alone.
use performant_transactional.Base.{
  ℕ, zero, suc, ◌+◌, ◌≡◌, refl, List, [], ◌∷◌, arith, ◌==◌, if◌then◌else◌, ◌∙◌,
}
use performant_transactional.Process.{update}
use performant_transactional.Stm.State.{
  State, exec, null, Tm, load_bytes, store_bytes, clear_bytes, release_all,
}
use performant_transactional.Stm.Access.{take_bytes, put_bytes}
use performant_transactional.Stm.Alone.{alone, alone-bind}

pub alone-load_bytes : (a n : ℕ) (s : State) → alone (load_bytes a n) s ≡ (take_bytes s.mem a n, s)
unfolding load_bytes take_bytes exec
alone-load_bytes a zero s = refl
alone-load_bytes a (suc n) s =
    alone-bind (load_bytes (a + 1) n) _ s ∙ rw (alone-load_bytes (a + 1) n s)

pub alone-store_bytes :
    (a : ℕ) (bs : List ℕ) (s : State)
    → alone (store_bytes a bs) s ≡ (tt, record s { mem = put_bytes s.mem a bs })
unfolding store_bytes put_bytes exec
alone-store_bytes a [] s = refl
alone-store_bytes a (b ∷ bs) s = alone-store_bytes (a + 1) bs (record s { mem = update s.mem a b })

-- What `free` adds to the log: a null pointer is not freed.
unfoldable pub log_free : ℕ → List ℕ → List ℕ
log_free p freed = if p == null then freed else p ∷ freed

unfoldable pub log_all : List ℕ → List ℕ → List ℕ
log_all [] freed = freed
log_all (p ∷ ps) freed = log_all ps (log_free p freed)

pub exec-release :
    (p : ℕ) (s : State)
    → exec (performant_transactional.Stm.State.Act.release p) s
      ≡ (tt, record s { freed = log_free p s.freed })
unfolding exec log_free
exec-release p s = ground arith

pub alone-release_all :
    (ps : List ℕ) (s : State)
    → alone (release_all ps) s ≡ (tt, record s { freed = log_all ps s.freed })
unfolding release_all log_all
alone-release_all [] s = refl
alone-release_all (p ∷ ps) s =
    rw (exec-release p s) (alone-release_all ps (record s { freed = log_free p s.freed }))
