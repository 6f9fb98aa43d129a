-- ===== src/Grading/Bank/Short/Search.antt =====
-- The search of `short_tx` of `WorkloadBank` (grading/workload.hpp) for the two accounts.
use performant_transactional.Base.{
  ℕ, zero, suc, ◌+◌, ◌-◌, ◌≤◌, ◌<◌, Bool, true, false, ◌&&◌, Option, none, some, List, [], ◌∷◌, ◌≡◌,
  ◌≢◌, refl, sym, ap, ◌∙◌, inl, inr, ◌==◌, ==_iff, ltb, ltb→lt, lt→ltb, Bool-cases, length, arith,
  if◌then◌else◌,
}
use performant_transactional.Grading.Shared.{
  word_mod, sub_word, World, Outcome, returned, apply, read_cell,
}
use performant_transactional.Grading.Shared.Apply.{apply-if}
use performant_transactional.Grading.Bank.{
  count_at, next_at, accounts_at, Search, look, find_accounts,
}
use performant_transactional.Grading.Bank.Audit.{population}
use performant_transactional.Grading.Bank.Layout.{Place, segments, head_of, IsLaid, address}

-- Where the search ends from here on.
unfoldable pub ending : List Place → Search → ℕ
ending ps a = if a.ptr == 0 then address ps a.index else a.ptr

unfoldable pub both : ℕ → ℕ → Option (ℕ × ℕ)
both s r = if ltb 0 s && ltb 0 r then some (s, r) else none

behind_word : (i n : ℕ) → ltb i n ≡ false → i < word_mod → sub_word i n ≡ i - n
unfolding sub_word
behind_word i n e h = let l : n ≤ i = ground arith in omega arith

not_null : (p : Place) (i : ℕ) → p.address ≢ 0 → (accounts_at p.address i == 0) ≡ false
not_null p i h = ground arith

ending-look :
    (p : Place) (ps : List Place) (a : Search)
    → p.address ≢ 0
    → a.index < word_mod
    → ending ps (look p.address (length p.segment.accounts) a) ≡ ending (p ∷ ps) a
unfolding ending look address
ending-look p ps a d h = elim (Bool-cases (a.ptr == 0)) [
  | inl e ↦ elim (Bool-cases (ltb a.index (length p.segment.accounts))) [
    | inl f ↦ rw (e, f, not_null p a.index d) refl
    | inr f ↦ rw (e, f, e, behind_word a.index (length p.segment.accounts) f h) refl
  ]
  | inr e ↦ rw (e, e) refl
]

look_below : (start n : ℕ) (a : Search) → a.index < word_mod → (look start n a).index < word_mod
unfolding look sub_word
look_below start n a h = elim (Bool-cases (a.ptr == 0)) [
  | inl e ↦ elim (Bool-cases (ltb a.index n)) [
    | inl f ↦ rw (e, f) h
    | inr f ↦ rw (e, f) (omega arith)
  ]
  | inr e ↦ rw e h
]

ending-found : (ps : List Place) (a : Search) → ltb 0 a.ptr ≡ true → ending ps a ≡ a.ptr
unfolding ending
ending-found ps a h = rw (nonzero a.ptr h) refl
  where
    nonzero : (n : ℕ) → ltb 0 n ≡ true → (n == 0) ≡ false
    nonzero n h = ground arith

ending-nowhere : (a : Search) → ending [] a ≡ a.ptr
unfolding ending address
ending-nowhere a = elim (Bool-cases (a.ptr == 0)) [
  | inl e ↦ rw e (sym ((==_iff a.ptr 0).0 e))
  | inr e ↦ rw e refl
]

pub &&_left : (a b : Bool) → (a && b) ≡ true → a ≡ true
&&_left true b h = refl
&&_left false b h = h

pub &&_right : (a b : Bool) → (a && b) ≡ true → b ≡ true
&&_right true b h = h
&&_right false b h = absurd cc

find_accounts-suc :
    (fuel start : ℕ) (send recv : Search) (w : World)
    → let send' = look start (w.mem (count_at start)) send in
      let recv' = look start (w.mem (count_at start)) recv in
      apply (find_accounts (suc fuel) start send recv) w ≡ (
        if ltb 0 send'.ptr && ltb 0 recv'.ptr
        then (returned (some (some (send'.ptr, recv'.ptr))), w)
        else (if w.mem (next_at start) == 0
            then (returned (some none), w)
            else apply (find_accounts fuel (w.mem (next_at start)) send' recv') w))
unfolding apply find_accounts read_cell
find_accounts-suc fuel start send recv w =
    let send' = look start (w.mem (count_at start)) send in
    let recv' = look start (w.mem (count_at start)) recv in
    let found : Outcome (Option (Option (ℕ × ℕ))) × World =
      (returned (some (some (send'.ptr, recv'.ptr))), w) in
    apply-if (ltb 0 send'.ptr && ltb 0 recv'.ptr) _ _ w
    ∙ ap (λ o. if ltb 0 send'.ptr && ltb 0 recv'.ptr then found else o)
        (apply-if (w.mem (next_at start) == 0) _ _ w)

both-found :
    (ps : List Place) (a b : Search)
    → (ltb 0 a.ptr && ltb 0 b.ptr) ≡ true
    → both (ending ps a) (ending ps b) ≡ some (a.ptr, b.ptr)
unfolding both
both-found ps a b h =
    rw
      (
        ending-found ps a (&&_left (ltb 0 a.ptr) (ltb 0 b.ptr) h),
        ending-found ps b (&&_right (ltb 0 a.ptr) (ltb 0 b.ptr) h),
        h,
      )
      refl

both-missing :
    (a b : Search) → (ltb 0 a.ptr && ltb 0 b.ptr) ≡ false → both (ending [] a) (ending [] b) ≡ none
unfolding both
both-missing a b h = rw (ending-nowhere a, ending-nowhere b, h) refl

-- One segment, where what follows finds what there is to find.
find_accounts-step :
    (fuel : ℕ) (p : Place) (ps : List Place) (send recv : Search) (w : World)
    → send.index < word_mod
    → recv.index < word_mod
    → IsLaid w.mem (p ∷ ps)
    → let send' = look p.address (length p.segment.accounts) send in
      let recv' = look p.address (length p.segment.accounts) recv in
      ((ltb 0 send'.ptr && ltb 0 recv'.ptr) ≡ false
        → (if head_of ps == 0
            then (returned (some none), w)
            else apply (find_accounts fuel (head_of ps) send' recv') w)
          ≡ (returned (some (both (ending ps send') (ending ps recv'))), w))
      → apply (find_accounts (suc fuel) p.address send recv) w
        ≡ (returned (some (both (ending (p ∷ ps) send) (ending (p ∷ ps) recv))), w)
unfolding IsLaid
find_accounts-step fuel p ps send recv w hs hr l onward =
    let n = length p.segment.accounts in
    let send' = look p.address n send in
    let recv' = look p.address n recv in
    find_accounts-suc fuel p.address send recv w
    ∙ rw (l.1, l.4, sym (ending-look p ps send l.0 hs), sym (ending-look p ps recv l.0 hr))
        (elim (Bool-cases (ltb 0 send'.ptr && ltb 0 recv'.ptr)) [
          | inl e ↦ rw (e, both-found ps send' recv' e) refl
          | inr e ↦ rw e (onward e)
        ])

nonzero : (n : ℕ) → n ≢ 0 → (n == 0) ≡ false
nonzero n d = ground arith

pub find_accounts-IsLaid :
    (fuel : ℕ) (p : Place) (ps : List Place) (send recv : Search) (w : World)
    → length ps < fuel
    → send.index < word_mod
    → recv.index < word_mod
    → IsLaid w.mem (p ∷ ps)
    → apply (find_accounts fuel p.address send recv) w
      ≡ (returned (some (both (ending (p ∷ ps) send) (ending (p ∷ ps) recv))), w)
unfolding IsLaid
find_accounts-IsLaid zero p ps send recv w h hs hr l = absurd (omega arith)
find_accounts-IsLaid (suc fuel) p [] send recv w h hs hr l =
    find_accounts-step fuel p [] send recv w hs hr l (λ e.
      rw
        (both-missing (look p.address (length p.segment.accounts) send)
          (look p.address (length p.segment.accounts) recv) e)
        refl)
find_accounts-IsLaid (suc fuel) p (q ∷ ps) send recv w h hs hr l =
    let n = length p.segment.accounts in
    let send' = look p.address n send in
    let recv' = look p.address n recv in
    find_accounts-step fuel p (q ∷ ps) send recv w hs hr l (λ e. rw (nonzero q.address l.5.0) (
      find_accounts-IsLaid fuel q ps send' recv' w (omega arith) (look_below p.address n send hs)
        (look_below p.address n recv hr) l.5))

near : (a i n k : ℕ) → ltb i n ≡ true → ltb 0 (accounts_at a i) ≡ ltb i (n + k)
near a i n k e =
    let l = ltb→lt i n e in
    lt→ltb 0 (accounts_at a i) (omega arith) ∙ sym (lt→ltb i (n + k) (omega arith))

far : (i n k : ℕ) → ltb i n ≡ false → ltb (i - n) k ≡ ltb i (n + k)
far i n k e = ground arith

-- An account is found when its index is below the number of accounts.
pub address_found :
    (m : ℕ → ℕ) (ps : List Place) (id : ℕ)
    → IsLaid m ps
    → ltb 0 (address ps id) ≡ ltb id (population (segments ps))
unfolding IsLaid address population segments
address_found m [] id l = ground arith
address_found m (p ∷ ps) id l =
    let n = length p.segment.accounts in
    elim (Bool-cases (ltb id n)) [
      | inl e ↦ rw e (near p.address id n (population (segments ps)) e)
      | inr e ↦ rw e (address_found m ps (id - n) l.5 ∙ far id n (population (segments ps)) e)
    ]
