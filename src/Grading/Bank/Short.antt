-- ===== src/Grading/Bank/Short.antt =====
-- `short_tx` of `WorkloadBank` (grading/workload.hpp) over the whole list of segments, and the
-- `long_tx` that follows it.
pub mod Search
use performant_transactional.Base.{
  ℕ, zero, suc, ◌+◌, ◌-◌, ◌*◌, ◌≤◌, ◌<◌, ◌^◌, Bool, true, false, ◌&&◌, Option, none, some, List, [],
  ◌∷◌, ◌≡◌, ◌≢◌, refl, sym, ap, ap₂, ◌∙◌, inl, inr, ◌==◌, ltb, ltb→lt, Bool-cases, length, arith,
  if◌then◌else◌,
}
use performant_transactional.Process.{ret, ◌>>=◌, ◌>>◌, update}
use performant_transactional.Grading.Shared.{
  word_mod, add_word, sub_word, Tx, World, Outcome, returned, thrown, apply,
}
use performant_transactional.Grading.Shared.Apply.{resume, apply-bind, resume-returned}
use performant_transactional.Grading.Bank.{
  Bank, is_positive, find_accounts, transfer, settle, short_tx, long_tx,
}
use performant_transactional.Grading.Bank.Audit.{
  IsChain, has_debt, population, money, audit, long_tx-audit,
}
use performant_transactional.Grading.Bank.Transfer.{
  transferred, transfer_lem, positive_bounds, sub_one, add_one,
}
use performant_transactional.Grading.Bank.Layout.{
  Place, segments, head_of, IsLaid, IsApart, starts-IsChain, length-segments, address, balance,
  set_balance,
}
use performant_transactional.Grading.Bank.Layout.Stores.{
  head-set_balance, length-set_balance, IsLaid-set_balance, population-set_balance,
  IsApart-set_balance, address-set_balance, balance_lem,
}
use performant_transactional.Grading.Bank.Layout.Money.{
  IsBelow, IsBelow-weaken, IsBelow-balance, IsBelow-set_balance, money-set_balance,
  has_debt-IsBelow,
}
use performant_transactional.Grading.Bank.Short.Search.{
  both, ending, &&_left, &&_right, find_accounts-IsLaid, address_found,
}

-- The segments after one unit was taken from an account, and after it was given to another.
abbrev taken : List Place → ℕ → List Place
taken ps s = set_balance ps s (sub_word (balance ps s) 1)

abbrev given : List Place → ℕ → ℕ → List Place
given ps s r = set_balance (taken ps s) r (add_word (balance (taken ps s) r) 1)

-- What `long_tx` finds does not tell the segments `qs` from `ps`.
record AuditedAs (ps qs : List Place) : Type 0 where
  head : head_of qs ≡ head_of ps
  size : length (segments qs) ≡ length (segments ps)
  people : population (segments qs) ≡ population (segments ps)
  wealth : money (segments qs) ≡ money (segments ps)
  solvent : has_debt (segments qs) ≡ has_debt (segments ps)

given-IsLaid :
    (m : ℕ → ℕ) (ps : List Place) (s r : ℕ)
    → s < population (segments ps)
    → r < population (segments ps)
    → IsApart ps
    → IsLaid m ps
    → IsLaid (transferred m (address ps s) (address ps r)) (given ps s r)
unfolding transferred
given-IsLaid m ps s r hs hr c l =
    let v = sub_word (balance ps s) 1 in
    let l' = IsLaid-set_balance m ps s v hs c l in
    let hr' : r < population (segments (taken ps s)) = rw (population-set_balance ps s v) hr in
    rw
      (
        balance_lem m ps s hs l,
        sym (address-set_balance ps s v r),
        balance_lem _ (taken ps s) r hr' l',
      )
      (IsLaid-set_balance _ (taken ps s) r _ hr' (IsApart-set_balance ps s v c) l')

given-AuditedAs :
    (ps : List Place) (s r : ℕ)
    → s < population (segments ps)
    → r < population (segments ps)
    → IsBelow (2 ^ 63 - 1) ps
    → is_positive (balance ps s) ≡ true
    → AuditedAs ps (given ps s r)
given-AuditedAs ps s r hs hr b p =
    let v = sub_word (balance ps s) 1 in
    let (low, high) = positive_bounds (balance ps s) p in
    let less = IsBelow-balance (2 ^ 63 - 1) ps s hs b in
    let e = sub_one (balance ps s) low (omega arith) in
    let qs = taken ps s in
    let hr' : r < population (segments qs) = rw (population-set_balance ps s v) hr in
    let b' = IsBelow-set_balance (2 ^ 63 - 1) ps s v (omega arith) b in
    let room = IsBelow-balance (2 ^ 63 - 1) qs r hr' b' in
    let f = add_one (balance qs r) (omega arith) in
    let first = money-set_balance ps s v hs in
    let second = money-set_balance qs r (add_word (balance qs r) 1) hr' in
    let b'' =
      IsBelow-set_balance (2 ^ 63) qs r (add_word (balance qs r) 1) (omega arith)
        (IsBelow-weaken (2 ^ 63 - 1) (2 ^ 63) qs (omega arith) b') in
    record {
      head = head-set_balance qs r _ ∙ head-set_balance ps s v;
      size = length-set_balance qs r _ ∙ length-set_balance ps s v;
      people = population-set_balance qs r _ ∙ population-set_balance ps s v;
      wealth = omega arith;
      solvent =
          has_debt-IsBelow _ b''
          ∙ sym (has_debt-IsBelow ps (IsBelow-weaken (2 ^ 63 - 1) (2 ^ 63) ps (omega arith) b));
    }

-- The words of `w'` hold segments that are audited like `ps`.
IsUnnoticed : List Place → World → Type 0
IsUnnoticed ps w' = (qs : List Place) × IsLaid w'.mem qs × AuditedAs ps qs

IsUnnoticed-same : (ps : List Place) (w : World) → IsLaid w.mem ps → IsUnnoticed ps w
unfolding IsUnnoticed
IsUnnoticed-same ps w l =
    (ps, l, record { head = refl; size = refl; people = refl; wealth = refl; solvent = refl })

transfer-IsUnnoticed :
    (ps : List Place) (s r : ℕ) (w : World)
    → s < population (segments ps)
    → r < population (segments ps)
    → IsApart ps
    → IsBelow (2 ^ 63 - 1) ps
    → IsLaid w.mem ps
    → let o = apply (transfer (address ps s) (address ps r)) w in
      (o.0 ≡ returned tt) × IsUnnoticed ps o.1
unfolding IsUnnoticed
transfer-IsUnnoticed ps s r w hs hr c b l =
    rw (transfer_lem (address ps s) (address ps r) w, balance_lem w.mem ps s hs l)
      (elim (Bool-cases (is_positive (balance ps s))) [
        | inl e ↦ rw e (
          refl,
          (given ps s r, given-IsLaid w.mem ps s r hs hr c l, given-AuditedAs ps s r hs hr b e),
        )
        | inr e ↦ rw e (refl, IsUnnoticed-same ps w l)
      ])

short_tx_lem :
    (fuel : ℕ) (b : Bank) (send recv : ℕ) (p : Place) (ps : List Place) (w : World)
    → length ps < fuel
    → send < word_mod
    → recv < word_mod
    → b.start ≡ p.address
    → IsLaid w.mem (p ∷ ps)
    → let s = address (p ∷ ps) send in
      let r = address (p ∷ ps) recv in
      apply (short_tx fuel b send recv) w ≡ (
        if ltb 0 s && ltb 0 r
        then resume (λ y. ret (some true)) (apply (transfer s r) w)
        else (returned (some false), w))
unfolding short_tx both ending resume apply
short_tx_lem fuel b send recv p ps w h hs hr e l =
    let s = address (p ∷ ps) send in
    let r = address (p ∷ ps) recv in
    apply-bind
      (find_accounts fuel b.start (record { ptr = 0; index = send })
        (record { ptr = 0; index = recv }))
      settle w
    ∙ rw
        (
          e,
          find_accounts-IsLaid fuel p ps (record { ptr = 0; index = send })
              (record { ptr = 0; index = recv }) w h hs hr l,
        )
        (elim (Bool-cases (ltb 0 s && ltb 0 r)) [
          | inl f ↦ rw f (apply-bind (transfer s r) (λ y. ret (some true)) w)
          | inr f ↦ rw f refl
        ])

short_tx-IsUnnoticed :
    (fuel : ℕ) (b : Bank) (send recv : ℕ) (p : Place) (ps : List Place) (w : World)
    → length ps < fuel
    → send < word_mod
    → recv < word_mod
    → b.start ≡ p.address
    → IsApart (p ∷ ps)
    → IsBelow (2 ^ 63 - 1) (p ∷ ps)
    → IsLaid w.mem (p ∷ ps)
    → let o = apply (short_tx fuel b send recv) w in
      let n = population (segments (p ∷ ps)) in
      (o.0 ≡ returned (some (ltb send n && ltb recv n))) × IsUnnoticed (p ∷ ps) o.1
short_tx-IsUnnoticed fuel b send recv p ps w h hs hr e c u l =
    let qs = p ∷ ps in
    let n = population (segments qs) in
    rw
      (
        short_tx_lem fuel b send recv p ps w h hs hr e l,
        address_found w.mem qs send l,
        address_found w.mem qs recv l,
      )
      (elim (Bool-cases (ltb send n && ltb recv n)) [
        | inl f ↦
            let (done, kept) =
              transfer-IsUnnoticed qs send recv w
                (ltb→lt send n (&&_left (ltb send n) (ltb recv n) f))
                (ltb→lt recv n (&&_right (ltb send n) (ltb recv n) f)) c u l in
            rw f (
              resume-returned (apply (transfer (address qs send) (address qs recv)) w) (some true)
                (IsUnnoticed qs) tt done kept)
        | inr f ↦ rw f (refl, IsUnnoticed-same qs w l)
      ])

long_tx-AuditedAs :
    (fuel : ℕ) (b : Bank) (k : ℕ) (ps qs : List Place) (w w' : World)
    → length ps < fuel
    → b.start ≡ head_of ps
    → IsLaid w.mem ps
    → IsLaid w'.mem qs
    → AuditedAs ps qs
    → (apply (long_tx fuel b k) w').0 ≡ (apply (long_tx fuel b k) w).0
unfolding audit
long_tx-AuditedAs fuel b k ps qs w w' h e l l' same =
    rw
      (
        long_tx-audit fuel b k (segments qs) w' (rw (same.size, length-segments ps) h)
            (starts-IsChain w'.mem b.start qs (e ∙ sym same.head) l'),
        long_tx-audit fuel b k (segments ps) w (rw (length-segments ps) h)
            (starts-IsChain w.mem b.start ps e l),
        same.people,
        same.wealth,
        same.solvent,
      )
      refl

-- Where the words hold segments, at least one, that do not overlap, with all balances below 2 ^ 63 - 1,
-- and with fuel for more segments than there are: `short_tx` returns whether there are accounts
-- with both indices, equal ones included, and a `long_tx` that follows it finds what it had found
-- before.
pub short_tx-long_tx :
    (fuel : ℕ) (b : Bank) (send recv nbaccounts : ℕ) (p : Place) (ps : List Place) (w : World)
    → length (p ∷ ps) < fuel
    → send < word_mod
    → recv < word_mod
    → b.start ≡ p.address
    → IsApart (p ∷ ps)
    → IsBelow (2 ^ 63 - 1) (p ∷ ps)
    → IsLaid w.mem (p ∷ ps)
    → let o = apply (short_tx fuel b send recv) w in
      let n = population (segments (p ∷ ps)) in
      (o.0 ≡ returned (some (ltb send n && ltb recv n)))
      × ((apply (long_tx fuel b nbaccounts) o.1).0 ≡ (apply (long_tx fuel b nbaccounts) w).0)
unfolding IsUnnoticed
short_tx-long_tx fuel b send recv k p ps w h hs hr e c u l =
    let (answer, (qs, laid, same)) =
      short_tx-IsUnnoticed fuel b send recv p ps w (omega arith) hs hr e c u l in
    (answer, long_tx-AuditedAs fuel b k (p ∷ ps) qs w _ h e l laid same)
