-- ===== src/Stm/Alone/Words.antt =====
-- Words of shared memory: a write set stored in memory gives back what it holds, word by word.
use performant_transactional.Base.{
  ℕ, zero, suc, ◌+◌, ◌*◌, ◌≤◌, ◌<◌, ◌≡◌, ◌≢◌, ◌⊎◌, inl, inr, refl, sym, none, some, List, [], ◌∷◌,
  arith, ◌==◌, ==_iff, if◌then◌else◌, ◌∙◌, ap, ap₂, length, All, Bool-cases,
}
use native.Mathlib.Decide.{dec_lt}
use performant_transactional.Process.{update}
use performant_transactional.Stm.Transaction.{Entry, find, insert_or_assign}
use performant_transactional.Stm.Access.{Private, take_bytes, put_bytes}
use performant_transactional.Stm.Alone.Ending.{store_all}

put_bytes_outside :
    (m : Private) (a : ℕ) (bs : List ℕ) (x : ℕ)
    → (x < a) ⊎ (a + length bs ≤ x)
    → put_bytes m a bs x ≡ m x
unfolding put_bytes
put_bytes_outside m a [] x h = refl
put_bytes_outside m a (b ∷ bs) x h =
    put_bytes_outside (update m a b) (a + 1) bs x (omega arith) ∙ ground arith

take_bytes_congr :
    (m m' : Private) (a n : ℕ)
    → ((x : ℕ) → a ≤ x → x < a + n → m x ≡ m' x)
    → take_bytes m a n ≡ take_bytes m' a n
unfolding take_bytes
take_bytes_congr m m' a zero h = refl
take_bytes_congr m m' a (suc n) h =
    ap₂ ◌∷◌ (h a (omega arith) (omega arith))
      (take_bytes_congr m m' (a + 1) n (λ x p q. h x (omega arith) (omega arith)))

pub take_bytes-put_bytes :
    (m : Private) (a : ℕ) (bs : List ℕ) → take_bytes (put_bytes m a bs) a (length bs) ≡ bs
unfolding take_bytes put_bytes
take_bytes-put_bytes m a [] = refl
take_bytes-put_bytes m a (b ∷ bs) =
    ap₂ ◌∷◌ (put_bytes_outside (update m a b) (a + 1) bs a (omega arith) ∙ ground arith)
      (take_bytes-put_bytes (update m a b) (a + 1) bs)

pub take_bytes-put_bytes_apart :
    (m : Private) (a b n : ℕ) (bs : List ℕ)
    → (a + n ≤ b) ⊎ (b + length bs ≤ a)
    → take_bytes (put_bytes m b bs) a n ≡ take_bytes m a n
take_bytes-put_bytes_apart m a b n bs h =
    take_bytes_congr (put_bytes m b bs) m a n (λ x p q. put_bytes_outside m b bs x (omega arith))

-- An entry of a write set as tm_write makes it: an aligned address and one word of bytes.
abbrev pub IsWord : ℕ → Entry → Type 0
IsWord w e = ((k : ℕ) × (e.0 ≡ k * w)) × (length e.1 ≡ w)

-- The keys of a map are distinct.
abbrev pub HasKeys : List Entry → Type 0
HasKeys [] = Unit {0}
HasKeys ((a, bs) ∷ ws) = (find a ws ≡ none) × HasKeys ws

below : (w j k : ℕ) → j < k → j * w + w ≤ k * w
below w j k h = grind arith

apart : (w a b j k : ℕ) → a ≡ j * w → b ≡ k * w → a ≢ b → (a + w ≤ b) ⊎ (b + w ≤ a)
apart w a b j k p q ne = elim (dec_lt j k) [
  | yes lt ↦ inl (omega (arith, below w j k lt))
  | no ge ↦ elim (dec_lt k j) [
    | yes lt ↦ inr (omega (arith, below w k j lt))
    | no le ↦ absurd (ne (p ∙ ap (λ t. t * w) (omega arith) ∙ sym q))
  ]
]

take_put_same :
    (m : Private) (b : ℕ) (bs : List ℕ) (a w : ℕ)
    → b ≡ a
    → length bs ≡ w
    → take_bytes (put_bytes m b bs) a w ≡ bs
take_put_same m b bs a w p q = rw (← p, ← q) (take_bytes-put_bytes m b bs)

-- What a transaction sees at an address: its own write, or else shared memory.
unfoldable pub seen : ℕ → List Entry → Private → ℕ → List ℕ
seen w ws m a = elim (find a ws) [ none ↦ take_bytes m a w | some bs ↦ bs ]

store_all_other :
    (w : ℕ) (ws : List Entry) (m : Private) (a k : ℕ)
    → a ≡ k * w
    → All (IsWord w) ws
    → find a ws ≡ none
    → take_bytes (store_all ws m) a w ≡ take_bytes m a w
unfolding store_all find
store_all_other w [] m a k e al h = refl
store_all_other w ((b, bs) ∷ ws) m a k e al h =
    store_all_other w ws (put_bytes m b bs) a k e al.1 (ground arith)
    ∙ take_bytes-put_bytes_apart m a b w bs
        (rw al.0.1 (apart w a b k al.0.0.0 e al.0.0.1 (ground arith)))

-- After the write set is stored, each aligned word of memory is the word that the transaction saw.
pub take_bytes-store_all :
    (w : ℕ) (ws : List Entry) (m : Private) (a k : ℕ)
    → a ≡ k * w
    → All (IsWord w) ws
    → HasKeys ws
    → take_bytes (store_all ws m) a w ≡ seen w ws m a
unfolding store_all find seen
take_bytes-store_all w [] m a k e al keys = refl
take_bytes-store_all w ((b, bs) ∷ ws) m a k e al keys = elim (Bool-cases (b == a)) [
  | inl hit ↦
      rw (hit, seen)
        (store_all_other w ws (put_bytes m b bs) a k e al.1 (rw (← (==_iff b a).0 hit) keys.0)
          ∙ take_put_same m b bs a w ((==_iff b a).0 hit) al.0.1)
  | inr miss ↦
      rw (miss, seen)
        (take_bytes-store_all w ws (put_bytes m b bs) a k e al.1 keys.1
          ∙ ap (λ v. elim (find a ws) [ none ↦ v | some own ↦ own ])
              (take_bytes-put_bytes_apart m a b w bs
                (rw al.0.1 (apart w a b k al.0.0.0 e al.0.0.1 (ground arith)))))
]

-- The write set that tm_write builds has one entry for each address.
find-insert_or_assign :
    (a b : ℕ) (bs : List ℕ) (ws : List Entry)
    → find b (insert_or_assign a bs ws) ≡ (if a == b then some bs else find b ws)
unfolding find insert_or_assign
find-insert_or_assign a b bs [] = refl
find-insert_or_assign a b bs ((c, cs) ∷ ws) = ground (arith, find-insert_or_assign a b bs ws)

pub insert_or_assign-HasKeys :
    (a : ℕ) (bs : List ℕ) (ws : List Entry) → HasKeys ws → HasKeys (insert_or_assign a bs ws)
unfolding insert_or_assign find
insert_or_assign-HasKeys a bs [] h = (refl, tt)
insert_or_assign-HasKeys a bs ((c, cs) ∷ ws) h =
    ground (arith, insert_or_assign-HasKeys a bs ws h.1, find-insert_or_assign a c bs ws)

pub insert_or_assign-IsWord :
    (w a : ℕ) (bs : List ℕ) (ws : List Entry)
    → IsWord w (a, bs)
    → All (IsWord w) ws
    → All (IsWord w) (insert_or_assign a bs ws)
unfolding insert_or_assign
insert_or_assign-IsWord w a bs [] h al = (h, tt)
insert_or_assign-IsWord w a bs ((c, cs) ∷ ws) h al = elim (Bool-cases (c == a)) [
  | inl hit ↦ rw hit (h, al.1)
  | inr miss ↦ rw miss (al.0, insert_or_assign-IsWord w a bs ws h al.1)
]
