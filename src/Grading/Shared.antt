-- ===== src/Grading/Shared.antt =====
-- Transaction closures of grading/: programs over the typed cells of `Shared` (transactional.hpp).
-- Every cell that the workloads use (size_t, a pointer, a Balance) is one word of eight bytes.
pub mod Apply
use performant_transactional.Base.{
  ℕ, ◌+◌, ◌-◌, ◌*◌, ◌%◌, ◌^◌, Bool, ◌&&◌, List, [], ◌∷◌, ◌==◌, leb, ltb, if◌then◌else◌,
}
use performant_transactional.Process.{Prog, ret, act, ◌>>=◌, ◌>>◌, update}

abbrev pub word_size : ℕ
word_size = 8

-- size_t, intptr_t and uintptr_t have 64 bits; `intptr_t` is in two's complement.
abbrev pub word_mod : ℕ
word_mod = 2 ^ 64

unfoldable pub add_word : ℕ → ℕ → ℕ
add_word a b = (a + b) % word_mod

unfoldable pub sub_word : ℕ → ℕ → ℕ
sub_word a b = (a + word_mod - b) % word_mod

unfoldable pub mul_word : ℕ → ℕ → ℕ
mul_word a b = a * b % word_mod

-- `w < 0` of a Balance
unfoldable pub is_negative : ℕ → Bool
is_negative w = leb (2 ^ 63) w

-- The exceptions that a closure can throw while `assert_mode` is false.
pub data Exception : Type 0 where
  transaction_retry transaction_alloc : Exception

pub data Op : Type 0 where
  read : ℕ → Op
  write : ℕ → ℕ → Op
  alloc : ℕ → Op
  free : ℕ → Op

abbrev pub Ans : Op → Type 0
Ans (read a) = ℕ
Ans (write a v) = Unit {0}
Ans (alloc n) = ℕ
Ans (free a) = Unit {0}

abbrev pub Tx : Type 0 → Type 0
Tx A = Prog Op Ans A

-- A cell is its address: `Shared(tx, address)`, and `after()`, the first byte behind it.
abbrev pub after : ℕ → ℕ
after a = a + word_size

-- `operator[]` of `Shared<Type[]>`
abbrev pub element : ℕ → ℕ → ℕ
element a i = a + i * word_size

unfoldable pub read_cell : ℕ → Tx ℕ
read_cell a = act (read a) ret

unfoldable pub write_cell : ℕ → ℕ → Tx (Unit {0})
write_cell a v = act (write a v) ret

-- `Shared<Type*>::alloc`: allocate, and store the address.
unfoldable pub alloc_cell : ℕ → ℕ → Tx ℕ
alloc_cell a size = do p ← act (alloc size) ret; write_cell a p; ret p

-- `Shared<Type*>::free`: free what the pointer names, and store a null pointer.
unfoldable pub free_cell : ℕ → Tx (Unit {0})
free_cell a = do p ← read_cell a; act (free p) ret; write_cell a 0

-- A committed transaction as its closure sees it: words by address, and what the next allocations
-- return, null for none.
pub record World : Type 0 where
  pub mem : ℕ → ℕ
  pub blocks : List ℕ

pub data Outcome (A : Type 0) : Type 0 where
  returned : A → Outcome A
  thrown : Exception → Outcome A

-- The words of a fresh segment are zero.
unfoldable pub zero_words : (ℕ → ℕ) → ℕ → ℕ → ℕ → ℕ
zero_words m p size a = if leb p a && ltb a (p + size) then 0 else m a

abbrev pub rest : List ℕ → List ℕ
rest [] = []
rest (p ∷ ps) = ps

abbrev pub first : List ℕ → ℕ
first [] = 0
first (p ∷ ps) = p

-- The closure as one atomic step. When an allocation throws, the destructor of the transaction still
-- ends it, so that the writes before it stay.
unfoldable pub apply : {A : Type 0} → Tx A → World → Outcome A × World
apply (ret x) w = (returned x, w)
apply (act (read a) k) w = apply (k (w.mem a)) w
apply (act (write a v) k) w = apply (k tt) (record w { mem = update w.mem a v })
apply (act (alloc n) k) w =
    let done =
      apply (k (first w.blocks))
        (record w { mem = zero_words w.mem (first w.blocks) n; blocks = rest w.blocks }) in
    if first w.blocks == 0 then (thrown transaction_alloc, w) else done
apply (act (free a) k) w = apply (k tt) w
