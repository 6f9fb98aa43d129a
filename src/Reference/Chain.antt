-- ===== src/Reference/Chain.antt =====
-- Doubly linked lists from a head on, and what the writes of link and unlink in reference/tm.c make
-- of them.
pub mod Unlink
use performant_transactional.Base.{
  ℕ, zero, suc, ◌+◌, Bool, true, false, List, [], ◌∷◌, ◌≡◌, ◌≢◌, ◌⊎◌, refl, sym, ap, ◌∙◌, inl, inr,
  ◌==◌, ==_iff, Bool-cases, arith, if◌then◌else◌,
}
use mathlib.Core.List.{Memᴰ}
use mathlib.Core.List.Memᴰ
use performant_transactional.Process.{update, update_own, update_else}
use performant_transactional.Reference.{set_prev, set_next}

-- From `a` on, with `p` before it, are the nodes of the list, and then NULL.
unfoldable pub IsChain : (ℕ → ℕ) → (ℕ → ℕ) → ℕ → List ℕ → ℕ → Type 0
IsChain prev next p [] a = a ≡ 0
IsChain prev next p (x ∷ xs) a = (a ≡ x) × (x ≢ 0) × (prev x ≡ p) × IsChain prev next x xs (next x)

unfoldable pub Avoids : ℕ → List ℕ → Type 0
Avoids a [] = Unit
Avoids a (x ∷ xs) = (a ≢ x) × Avoids a xs

unfoldable pub IsDistinct : List ℕ → Type 0
IsDistinct [] = Unit
IsDistinct (x ∷ xs) = Avoids x xs × IsDistinct xs

unfoldable pub remove : ℕ → List ℕ → List ℕ
remove a [] = []
remove a (x ∷ xs) = let rest = remove a xs in if x == a then xs else x ∷ rest

-- Writes to nodes that are not in the chain leave it.
pub frame_next :
    (prev next : ℕ → ℕ) (p b v : ℕ) (xs : List ℕ) (a : ℕ)
    → Avoids b xs
    → IsChain prev next p xs a
    → IsChain prev (update next b v) p xs a
unfolding IsChain Avoids
frame_next prev next p b v [] a d c = c
frame_next prev next p b v (x ∷ xs) a d c = (
  c.0,
  c.1,
  c.2,
  rw (update_else next b x v d.0) (frame_next prev next x b v xs (next x) d.1 c.3),
)

pub frame_prev :
    (prev next : ℕ → ℕ) (p b v : ℕ) (xs : List ℕ) (a : ℕ)
    → Avoids b xs
    → IsChain prev next p xs a
    → IsChain (update prev b v) next p xs a
unfolding IsChain Avoids
frame_prev prev next p b v [] a d c = c
frame_prev prev next p b v (x ∷ xs) a d c =
    (c.0, c.1, update_else prev b x v d.0 ∙ c.2, frame_prev prev next x b v xs (next x) d.1 c.3)

pub differ : (a b : ℕ) → a ≢ b → (a == b) ≡ false
differ a b h = ground arith

pub set_prev-some : (a q x : ℕ) (f : ℕ → ℕ) → a ≡ x → x ≢ 0 → set_prev a q f ≡ update f x q
set_prev-some a q x f e z = rw (e, differ x 0 z) refl

pub set_next-some : (p n x : ℕ) (f : ℕ → ℕ) → p ≡ x → x ≢ 0 → set_next p n f ≡ update f x n
set_next-some p n x f e z = rw (e, differ x 0 z) refl

first-eq :
    (prev next : ℕ → ℕ) (p x : ℕ) (xs : List ℕ) (a : ℕ) → IsChain prev next p (x ∷ xs) a → a ≡ x
unfolding IsChain
first-eq prev next p x xs a c = c.0

first-ne-zero :
    (prev next : ℕ → ℕ) (p x : ℕ) (xs : List ℕ) (a : ℕ) → IsChain prev next p (x ∷ xs) a → x ≢ 0
unfolding IsChain
first-ne-zero prev next p x xs a c = c.1

relink_some :
    (prev next : ℕ → ℕ) (p q x : ℕ) (xs : List ℕ) (a : ℕ)
    → IsDistinct (x ∷ xs)
    → IsChain prev next p (x ∷ xs) a
    → IsChain (update prev x q) next q (x ∷ xs) a
unfolding IsChain IsDistinct
relink_some prev next p q x xs a d c =
    (c.0, c.1, update_own prev x q, frame_prev prev next x x q xs (next x) d.0 c.3)

relink_none :
    (prev next : ℕ → ℕ) (p q : ℕ) (f : ℕ → ℕ) (a : ℕ)
    → IsChain prev next p [] a
    → IsChain f next q [] a
unfolding IsChain
relink_none prev next p q f a c = c

-- `if (a) a->prev = q` for the head `a`.
pub relink :
    (prev next : ℕ → ℕ) (p q : ℕ) (xs : List ℕ) (a : ℕ)
    → IsDistinct xs
    → IsChain prev next p xs a
    → IsChain (set_prev a q prev) next q xs a
relink prev next p q [] a d c = relink_none prev next p q (set_prev a q prev) a c
relink prev next p q (x ∷ xs) a d c =
    rw
      (set_prev-some a q x prev (first-eq prev next p x xs a c)
        (first-ne-zero prev next p x xs a c))
      (relink_some prev next p q x xs a d c)

-- The head of a chain is not a node that the chain avoids.
pub head_avoided :
    (prev next : ℕ → ℕ) (p b v : ℕ) (xs : List ℕ) (a : ℕ)
    → Avoids b xs
    → IsChain prev next p xs a
    → (f : ℕ → ℕ) → set_prev a v f b ≡ f b
unfolding IsChain Avoids
head_avoided prev next p b v [] a d c f = rw c refl
head_avoided prev next p b v (x ∷ xs) a d c f =
    ap (λ g. g b) (set_prev-some a v x f c.0 c.1) ∙ update_else f x b v (λ e. d.0 (sym e))

pub link-IsChain :
    (prev next : ℕ → ℕ) (sn : ℕ) (xs : List ℕ) (a : ℕ)
    → sn ≢ 0
    → Avoids sn xs
    → IsDistinct xs
    → IsChain prev next 0 xs a
    → IsChain (set_prev a sn (update prev sn 0)) (update next sn a) 0 (sn ∷ xs) sn
unfolding IsChain
link-IsChain prev next sn xs a z v d c = (
  refl,
  z,
  head_avoided prev next 0 sn sn xs a v c (update prev sn 0) ∙ update_own prev sn 0,
  rw (update_own next sn a) (
      frame_next (set_prev a sn (update prev sn 0)) next sn sn a xs a v
        (relink (update prev sn 0) next 0 sn xs a d (frame_prev prev next 0 sn 0 xs a v c))),
)

pub Avoids-Memᴰ : (b c : ℕ) (xs : List ℕ) → Avoids b xs → Memᴰ c xs → b ≢ c
unfolding Avoids
Avoids-Memᴰ b c [] v m = elim m [ ]
Avoids-Memᴰ b c (x ∷ xs) v (Memᴰ.head e) = λ h. v.0 (h ∙ e)
Avoids-Memᴰ b c (x ∷ xs) v (Memᴰ.tail m) = Avoids-Memᴰ b c xs v.1 m

first-Memᴰ :
    (prev next : ℕ → ℕ) (p : ℕ) (xs : List ℕ) (a : ℕ)
    → IsChain prev next p xs a
    → (a ≡ 0) ⊎ Memᴰ a xs
unfolding IsChain
first-Memᴰ prev next p [] a c = inl c
first-Memᴰ prev next p (x ∷ xs) a c = inr (Memᴰ.head c.0)

-- What is next to a node.
pub next-Memᴰ :
    (prev next : ℕ → ℕ) (p b : ℕ) (xs : List ℕ) (a : ℕ)
    → IsChain prev next p xs a
    → Memᴰ b xs
    → (next b ≡ 0) ⊎ Memᴰ (next b) xs
unfolding IsChain
next-Memᴰ prev next p b [] a c m = elim m [ ]
next-Memᴰ prev next p b (x ∷ xs) a c (Memᴰ.head e) =
    rw e
      (elim (first-Memᴰ prev next x xs (next x) c.3) [ inl h ↦ inl h | inr m ↦ inr (Memᴰ.tail m) ])
next-Memᴰ prev next p b (x ∷ xs) a c (Memᴰ.tail m) =
    elim (next-Memᴰ prev next x b xs (next x) c.3 m) [ inl h ↦ inl h | inr k ↦ inr (Memᴰ.tail k) ]

-- What is before it: the head's `p`, or a node of the chain.
pub prev-Memᴰ :
    (prev next : ℕ → ℕ) (p b : ℕ) (xs : List ℕ) (a : ℕ)
    → IsChain prev next p xs a
    → Memᴰ b xs
    → ((a ≡ b) × (prev b ≡ p)) ⊎ Memᴰ (prev b) xs
unfolding IsChain
prev-Memᴰ prev next p b [] a c m = elim m [ ]
prev-Memᴰ prev next p b (x ∷ xs) a c (Memᴰ.head e) = inl (rw e (c.0, c.2))
prev-Memᴰ prev next p b (x ∷ xs) a c (Memᴰ.tail m) =
    elim (prev-Memᴰ prev next x b xs (next x) c.3 m) [
      | inl h ↦ inr (Memᴰ.head h.1)
      | inr k ↦ inr (Memᴰ.tail k)
    ]

pub IsChain-Avoids :
    (prev next : ℕ → ℕ) (p : ℕ) (xs : List ℕ) (a : ℕ) → IsChain prev next p xs a → Avoids 0 xs
unfolding IsChain Avoids
IsChain-Avoids prev next p [] a c = tt
IsChain-Avoids prev next p (x ∷ xs) a c =
    ((λ e. c.1 (sym e)), IsChain-Avoids prev next x xs (next x) c.3)

remove-Avoids : (a b : ℕ) (xs : List ℕ) → Avoids a xs → Avoids a (remove b xs)
unfolding Avoids remove
remove-Avoids a b [] v = tt
remove-Avoids a b (x ∷ xs) v = elim (Bool-cases (x == b)) [
  | inl e ↦ rw e v.1
  | inr e ↦ rw e (v.0, remove-Avoids a b xs v.1)
]

pub remove-IsDistinct : (b : ℕ) (xs : List ℕ) → IsDistinct xs → IsDistinct (remove b xs)
unfolding IsDistinct remove
remove-IsDistinct b [] d = tt
remove-IsDistinct b (x ∷ xs) d = elim (Bool-cases (x == b)) [
  | inl e ↦ rw e d.1
  | inr e ↦ rw e (remove-Avoids x b xs d.0, remove-IsDistinct b xs d.1)
]
