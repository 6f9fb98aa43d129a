-- ===== src/Reference/Segments/Freed.antt =====
-- What the programs over reference/tm.c allocate is freed, once.
use performant_transactional.Base.{
  ℕ, zero, suc, ◌+◌, ◌-◌, ◌<◌, Bool, true, false, Option, none, some, List, [], ◌∷◌, ◌≡◌, refl, ◌∙◌,
  inl, inr, ◌==◌, ==_iff, Bool-cases, arith, length, if◌then◌else◌,
}
use mathlib.Core.List.{Memᴰ}
use performant_transactional.Reference.{
  Heap, Region, node_size, free, tm_alloc, tm_free, link, unlink, free_segments, free_region,
  tm_destroy, tm_create, Call, allocate, release, perform, serve, lifetime, clear,
}
use performant_transactional.Reference.Chain.{IsChain, IsDistinct, remove, differ}
use performant_transactional.Reference.Segments.{
  Keeps, live, live_after, IsPermitted, IsLegal, add_answer, handed_out, serve-Keeps,
}

-- How often an address is in a list.
unfoldable pub times : ℕ → List ℕ → ℕ
times a [] = 0
times a (x ∷ xs) = let rest = times a xs in if x == a then rest + 1 else rest

times-remove :
    (a b : ℕ) (xs : List ℕ) → Memᴰ b xs → times a (remove b xs) + times a (b ∷ []) ≡ times a xs
unfolding times remove
times-remove a b [] m = elim m [ ]
times-remove a b (x ∷ xs) m = elim (Bool-cases (x == b)) [
  | inl e ↦ let same = (==_iff x b).0 e in rw (e, same) (one_more (b == a) (times a xs))
  | inr e ↦
      let rest = times-remove a b xs (later x b e m) in
      rw e (kept (x == a) (times a (remove b xs)) (times a xs) _ rest)
]
  where
    one_more : (c : Bool) (n : ℕ) → n + (if c then 0 + 1 else 0) ≡ (if c then n + 1 else n)
    one_more c n = ground arith

    kept :
        (c : Bool) (n k j : ℕ) → n + j ≡ k → (if c then n + 1 else n) + j ≡ (if c then k + 1 else k)
    kept c n k j e = ground arith

    later : (x b : ℕ) → (x == b) ≡ false → Memᴰ b (x ∷ xs) → Memᴰ b xs
    later x b e (Memᴰ.head h) = absurd (ground arith)
    later x b e (Memᴰ.tail k) = k

times-nil : (a : ℕ) → times a [] ≡ 0
unfolding times
times-nil a = refl

times-cons : (a x : ℕ) (xs : List ℕ) → times a (x ∷ xs) ≡ times a xs + times a (x ∷ [])
unfolding times
times-cons a x xs = more (x == a) (times a xs)
  where
    more : (c : Bool) (n : ℕ) → (if c then n + 1 else n) ≡ n + (if c then 0 + 1 else 0)
    more c n = ground arith

-- What a call frees and what stays live add up.
perform-times :
    (a : ℕ) (c : Call) (xs ys : List ℕ) (region : Region) (h : Heap)
    → IsPermitted c xs
    → times a (perform c region h).1.freed + times a (live c xs) + times a ys
      ≡ times a h.freed + times a xs + times a (add_answer c ys)
unfolding tm_alloc tm_free link unlink
perform-times a (allocate size none) xs ys region h p = refl
perform-times a (allocate size (some sn)) xs ys region h p =
    let left = times-cons a sn xs in let right = times-cons a sn ys in omega (arith, left, right)
perform-times a (release segment) xs ys region h p =
    let sn = segment - node_size in
    let left = times-cons a sn h.freed in
    let right = times-remove a sn xs p in omega (arith, left, right)

serve-times :
    (a : ℕ) (cs : List Call) (xs : List ℕ) (region : Region) (h : Heap)
    → IsLegal cs xs
    → times a (serve cs region h).1.freed + times a (live_after cs xs)
      ≡ times a h.freed + times a xs + times a (handed_out cs)
unfolding serve live_after IsLegal handed_out
serve-times a [] xs region h l = nothing (times a h.freed) (times a xs) (times a []) (times-nil a)
  where
    nothing : (m n k : ℕ) → k ≡ 0 → m + n ≡ m + n + k
    nothing m n k e = omega arith
serve-times a (c ∷ cs) xs region h l =
    let rest = serve-times a cs (live c xs) (perform c region h).0 (perform c region h).1 l.1 in
    let first = perform-times a c xs (handed_out cs) region h l.0 in rest ∙ first

-- The end of a loop or of a program: it was reached, and these were freed.
abbrev pub FreesAll : Heap → List ℕ → Option Heap → Type 0
FreesAll h xs none = ⊥
FreesAll h xs (some h') = (a : ℕ) → times a h'.freed ≡ times a h.freed + times a xs

FreesAll-first :
    (h : Heap) (x : ℕ) (xs : List ℕ) (o : Option Heap)
    → FreesAll (free x h) xs o
    → FreesAll h (x ∷ xs) o
FreesAll-first h x xs none f = f
FreesAll-first h x xs (some h') f = λ a.
    let rest = f a in
    let first = times-cons a x h.freed in
    let all = times-cons a x xs in omega (arith, rest, first, all)

-- The loop of tm_destroy frees every node of the list.
free_segments-FreesAll :
    (n p : ℕ) (xs : List ℕ) (a : ℕ) (h : Heap)
    → length xs < n
    → IsChain h.prev h.next p xs a
    → FreesAll h xs (free_segments n a h)
unfolding free_segments IsChain
free_segments-FreesAll zero p xs a h l c = absurd (omega arith)
free_segments-FreesAll (suc n) p [] a h l c =
    rw ((==_iff a 0).1 c) (λ b. nothing (times b h.freed) (times b []) (times-nil b))
  where
    nothing : (m k : ℕ) → k ≡ 0 → m ≡ m + k
    nothing m k e = omega arith
free_segments-FreesAll (suc n) p (x ∷ xs) a h l c =
    rw (c.0, differ x 0 c.1)
      (FreesAll-first h x xs (free_segments n (h.next x) (free x h))
        (free_segments-FreesAll n x xs (h.next x) (free x h) (omega arith) c.3))

perform-self :
    (c : Call) (region : Region) (h : Heap)
    → ((perform c region h).0.self ≡ region.self) × ((perform c region h).0.start ≡ region.start)
unfolding tm_alloc tm_free link unlink
perform-self (allocate size none) region h = (refl, refl)
perform-self (allocate size (some sn)) region h = (refl, refl)
perform-self (release segment) region h = (refl, refl)

serve-self :
    (cs : List Call) (region : Region) (h : Heap)
    → ((serve cs region h).0.self ≡ region.self) × ((serve cs region h).0.start ≡ region.start)
unfolding serve
serve-self [] region h = (refl, refl)
serve-self (c ∷ cs) region h =
    let now = perform-self c region h in
    let rest = serve-self cs (perform c region h).0 (perform c region h).1 in
    (rest.0 ∙ now.0, rest.1 ∙ now.1)

free_region-FreesAll :
    (region : Region) (h : Heap) (xs : List ℕ) (o : Option Heap)
    → FreesAll h xs o
    → FreesAll h (region.self ∷ region.start ∷ xs) (free_region region o)
free_region-FreesAll region h xs none f = f
free_region-FreesAll region h xs (some h') f = λ a.
    let rest = f a in
    let self = times-cons a region.self (region.start ∷ h'.freed) in
    let start = times-cons a region.start h'.freed in
    let all = times-cons a region.self (region.start ∷ xs) in
    let most = times-cons a region.start xs in omega (arith, rest, self, start, all, most)

-- What is live at the end is freed by tm_destroy, what is not was freed before.
balanced :
    (h h2 : Heap) (r s : ℕ) (xs ys : List ℕ) (o : Option Heap)
    → ((a : ℕ) → times a h2.freed + times a xs ≡ times a h.freed + times a [] + times a ys)
    → FreesAll h2 (r ∷ s ∷ xs) o
    → FreesAll h (r ∷ s ∷ ys) o
balanced h h2 r s xs ys none e f = f
balanced h h2 r s xs ys (some h') e f = λ a.
    let rest = f a in
    let sum = e a in
    let first = times-cons a r (s ∷ xs) in
    let second = times-cons a s xs in
    let third = times-cons a r (s ∷ ys) in
    let fourth = times-cons a s ys in
    let none_left = times-nil a in omega (arith, rest, sum, first, second, third, fourth, none_left)

same_addresses :
    {a b c d : ℕ} (h : Heap) (xs : List ℕ) (o : Option Heap)
    → a ≡ b
    → c ≡ d
    → FreesAll h (a ∷ c ∷ xs) o
    → FreesAll h (b ∷ d ∷ xs) o
same_addresses h xs o e e' f = rw (← e, ← e') f

used-FreesAll :
    (n : ℕ) (cs : List Call) (region : Region) (h : Heap)
    → region.allocs ≡ 0
    → IsLegal cs []
    → length (live_after cs []) < n
    → FreesAll h
        (region.self ∷ region.start ∷ handed_out cs)
        (tm_destroy n (serve cs region h).0 (serve cs region h).1)
unfolding tm_destroy Keeps IsChain IsDistinct
used-FreesAll n cs region h e l g =
    let left = live_after cs [] in
    let r2 = (serve cs region h).0 in
    let h2 = (serve cs region h).1 in
    let kept = serve-Keeps cs [] region h l (e, tt) in
    let same = serve-self cs region h in
    let loop = free_segments-FreesAll n 0 left r2.allocs h2 g kept.0 in
    let all = free_region-FreesAll r2 h2 left (free_segments n r2.allocs h2) loop in
    balanced h h2 region.self region.start left (handed_out cs)
      (free_region r2 (free_segments n r2.allocs h2)) (λ a. serve-times a cs [] region h l)
      (same_addresses h2 left (free_region r2 (free_segments n r2.allocs h2)) same.0 same.1 all)

-- What was allocated by the program: the region, its first segment, and the nodes.
abbrev pub acquired : Option ℕ → Option ℕ → Bool → List Call → List ℕ
acquired none start lock cs = []
acquired (some r) none lock cs = r ∷ []
acquired (some r) (some s) false cs = r ∷ s ∷ []
acquired (some r) (some s) true cs = r ∷ s ∷ handed_out cs

-- A program that creates a region, whatever the allocations and the lock's initialisation answer, makes
-- any calls of tm_alloc and tm_free if it got one, and destroys it. The allocator answers with nodes
-- that are not in use, the program frees only what it has, and the fuel is more than the number of
-- nodes that are left. Then tm_destroy ends, and every address has been freed as often as it was
-- allocated.
pub lifetime-FreesAll :
    (size align : ℕ) (region start : Option ℕ) (lock : Bool) (n : ℕ) (cs : List Call) (h : Heap)
    → IsLegal cs []
    → length (live_after cs []) < n
    → FreesAll h (acquired region start lock cs) (lifetime size align region start lock n cs h)
unfolding lifetime tm_create tm_destroy Keeps IsChain IsDistinct
lifetime-FreesAll size align none start lock n cs h l g =
    λ a. nothing (times a h.freed) _ (times-nil a)
  where
    nothing : (m k : ℕ) → k ≡ 0 → m ≡ m + k
    nothing m k e = omega arith
lifetime-FreesAll size align (some r) none lock n cs h l g = λ a. times-cons a r h.freed
lifetime-FreesAll size align (some r) (some s) false n cs h l g = λ a.
    let first = times-cons a r (s ∷ h.freed) in
    let second = times-cons a s h.freed in
    let all = times-cons a r (s ∷ []) in omega (arith, first, second, all)
lifetime-FreesAll size align (some r) (some s) true n cs h l g =
    used-FreesAll n cs _ (record h { bytes = clear s size h.bytes }) refl l g
