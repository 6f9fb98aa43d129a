-- ===== src/Reference/Chain/Unlink.antt =====
-- A node is taken out of a doubly linked list.
use performant_transactional.Base.{
  ℕ, false, List, [], ◌∷◌, ◌≡◌, ◌≢◌, refl, sym, ap, ◌∙◌, inl, inr, ◌==◌, ==_iff, Bool-cases, arith,
  if◌then◌else◌,
}
use mathlib.Core.List.{Memᴰ}
use mathlib.Core.List.Memᴰ
use performant_transactional.Process.{update_own, update_else}
use performant_transactional.Reference.{set_prev, set_next}
use performant_transactional.Reference.Chain.{
  IsChain, Avoids, IsDistinct, remove, frame_next, differ, set_next-some, relink, Avoids-Memᴰ,
  next-Memᴰ, prev-Memᴰ,
}

frame_set_next :
    (prev next : ℕ → ℕ) (p q n : ℕ) (xs : List ℕ) (a : ℕ)
    → Avoids q xs
    → IsChain prev next p xs a
    → IsChain prev (set_next q n next) p xs a
frame_set_next prev next p q n xs a v c = elim (Bool-cases (q == 0)) [
  | inl e ↦ rw e c
  | inr e ↦ rw e (frame_next prev next p q n xs a v c)
]

set_prev-else : (a q x : ℕ) (f : ℕ → ℕ) → a ≢ x → set_prev a q f x ≡ f x
set_prev-else a q x f d = elim (Bool-cases (a == 0)) [
  | inl e ↦ rw e refl
  | inr e ↦ rw e (update_else f a x q d)
]

set_next-else : (p n x : ℕ) (f : ℕ → ℕ) → p ≢ x → set_next p n f x ≡ f x
set_next-else p n x f d = elim (Bool-cases (p == 0)) [
  | inl e ↦ rw e refl
  | inr e ↦ rw e (update_else f p x n d)
]

-- The first node is the one that is looked for.
pub first-prev :
    (prev next : ℕ → ℕ) (p b : ℕ) (xs : List ℕ) (a : ℕ)
    → IsChain prev next p xs a
    → Memᴰ b xs
    → a ≡ b
    → prev b ≡ p
unfolding IsChain
first-prev prev next p b [] a c m e = elim m [ ]
first-prev prev next p b (x ∷ xs) a c m e = rw (sym e ∙ c.0) c.2

module _ (prev next : ℕ → ℕ) (b : ℕ) where
  -- What unlink writes.
  abbrev pub prev' : ℕ → ℕ
  prev' = set_prev (next b) (prev b) prev

  abbrev pub next' : ℕ → ℕ
  next' = set_next (prev b) (next b) next

  abbrev pub head' : ℕ → ℕ
  head' a = if a == b then next b else a

  out :
      (p x : ℕ) (xs : List ℕ) (a : ℕ)
      → x ≡ b
      → Avoids p xs
      → IsDistinct xs
      → prev x ≡ p
      → IsChain prev next x xs (next x)
      → IsChain prev' next' p xs (next b)
  out p x xs a e v d h c =
      let q : prev b ≡ p = ap prev (sym e) ∙ h in
      rw q (
        frame_set_next (set_prev (next b) p prev) next p p (next b) xs (next b) v
          (relink prev next b p xs (next b) d (rw e at c)))

  -- The node before it, if that is `x`, and its successor.
  next_of :
      (x : ℕ) (xs : List ℕ)
      → x ≢ 0
      → Avoids x xs
      → IsChain prev next x xs (next x)
      → Memᴰ b xs
      → next' x ≡ head' (next x)
  next_of x xs z v c m = elim (prev-Memᴰ prev next x b xs (next x) c m) [
    | inl h ↦
        rw ((==_iff (next x) b).1 h.0) (
          ap (λ g. g x) (set_next-some (prev b) (next b) x next h.1 z) ∙ update_own next x (next b))
    | inr k ↦
        rw
          (differ (next x) b
            (λ e. Avoids-Memᴰ x (prev b) xs v k (sym (first-prev prev next x b xs (next x) c m e))))
          (set_next-else (prev b) (next b) x next (λ e. Avoids-Memᴰ x (prev b) xs v k (sym e)))
  ]

  prev_of :
      (p x : ℕ) (xs : List ℕ)
      → x ≢ 0
      → Avoids x xs
      → IsChain prev next x xs (next x)
      → Memᴰ b xs
      → prev' x ≡ prev x
  prev_of p x xs z v c m = elim (next-Memᴰ prev next x b xs (next x) c m) [
    | inl h ↦ set_prev-else (next b) (prev b) x prev (λ e. z (sym e ∙ h))
    | inr k ↦ set_prev-else (next b) (prev b) x prev (λ e. Avoids-Memᴰ x (next b) xs v k (sym e))
  ]

  later : (x : ℕ) (xs : List ℕ) → x ≢ b → Memᴰ b (x ∷ xs) → Memᴰ b xs
  later x xs d m = elim (Memᴰ.cases_cons m) [ inl e ↦ absurd (d (sym e)) | inr k ↦ k ]

  apart : (x : ℕ) → (x == b) ≡ false → x ≢ b
  apart x e h = ground arith

  pub taken_out :
      (p : ℕ) (xs : List ℕ) (a : ℕ)
      → Avoids p xs
      → IsDistinct xs
      → IsChain prev next p xs a
      → Memᴰ b xs
      → IsChain prev' next' p (remove b xs) (head' a)
  unfolding IsChain Avoids IsDistinct remove
  taken_out p [] a v d c m = elim m [ ]
  taken_out p (x ∷ xs) a v d c m = elim (Bool-cases (x == b)) [
    | inl e ↦ rw (c.0, e) (out p x xs a ((==_iff x b).0 e) v.1 d.1 c.2 c.3)
    | inr e ↦
        let k = later x xs (apart x e) m in
        rw (c.0, e)
          (
            refl,
            c.1,
            prev_of p x xs c.1 d.0 c.3 k ∙ c.2,
            rw (next_of x xs c.1 d.0 c.3 k) (taken_out x xs (next x) d.0 d.1 c.3 k),
          )
  ]
