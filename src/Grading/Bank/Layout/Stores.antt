-- ===== src/Grading/Bank/Layout/Stores.antt =====
-- What a store to one account of `WorkloadBank` (grading/workload.hpp) changes.
use performant_transactional.Base.{
  ℕ, suc, ◌+◌, ◌-◌, ◌≤◌, ◌<◌, false, List, [], ◌∷◌, ◌≡◌, refl, sym, ap, ◌∙◌, ◌⊎◌, inl, inr, ltb,
  ltb→lt, Bool-cases, length, arith,
}
use performant_transactional.Process.{update}
use performant_transactional.Grading.Bank.{count_at, next_at, parity_at, accounts_at}
use performant_transactional.Grading.Bank.Audit.{AccountsAt, population}
use performant_transactional.Grading.Bank.Layout.{
  Place, segments, head_of, IsLaid, end_of, IsClear, IsApart, address, balance, set_balance,
}
use performant_transactional.Grading.Bank.Layout.Arrays.{
  update_other, length-set_at, AccountsAt-other, AccountsAt-set_at, AccountsAt-get_at,
}

-- A store outside a segment, or outside all of them, leaves them.
abbrev Outside : ℕ → Place → Type 0
Outside a p = (a < p.address) ⊎ (end_of p ≤ a)

kept :
    (m : ℕ → ℕ) (a v : ℕ) (p : Place) (b : ℕ)
    → Outside a p
    → p.address ≤ b
    → b < end_of p
    → update m a v b ≡ m b
kept m a v p b o l h =
    update_other m a v b
      (elim o [ inl k ↦ λ e. absurd (omega arith) | inr k ↦ λ e. absurd (omega arith) ])

accounts_kept :
    (m : ℕ → ℕ) (a v : ℕ) (p : Place)
    → Outside a p
    → AccountsAt m p.address 0 p.segment.accounts
    → AccountsAt (update m a v) p.address 0 p.segment.accounts
accounts_kept m a v p o h =
    AccountsAt-other m a v p.address 0 p.segment.accounts
      (elim o [ inl k ↦ inl (omega arith) | inr k ↦ inr (omega arith) ]) h

IsLaid-far :
    (m : ℕ → ℕ) (a v low high : ℕ) (ps : List Place)
    → low ≤ a
    → a < high
    → IsClear low high ps
    → IsLaid m ps
    → IsLaid (update m a v) ps
unfolding IsLaid IsClear
IsLaid-far m a v low high [] l h c laid = tt
IsLaid-far m a v low high (p ∷ ps) l h c laid =
    let o : Outside a p = elim c.0 [ inl k ↦ inl (omega arith) | inr k ↦ inr (omega arith) ] in
    (
      laid.0,
      kept m a v p (count_at p.address) o (omega arith) (omega arith) ∙ laid.1,
      kept m a v p (parity_at p.address) o (omega arith) (omega arith) ∙ laid.2,
      accounts_kept m a v p o laid.3,
      kept m a v p (next_at p.address) o (omega arith) (omega arith) ∙ laid.4,
      IsLaid-far m a v low high ps l h c.1 laid.5,
    )

-- The index in the segments behind the first.
pub behind : (n id : ℕ) (k : ℕ) → ltb id n ≡ false → id < n + k → id - n < k
behind n id k e h = ground arith

address-Outside :
    (p : Place) (ps : List Place) (id : ℕ)
    → IsClear p.address (end_of p) ps
    → id < population (segments ps)
    → Outside (address ps id) p
unfolding IsClear population segments address
address-Outside p [] id c h = absurd (omega arith)
address-Outside p (q ∷ ps) id c h = elim (Bool-cases (ltb id (length q.segment.accounts))) [
  | inl e ↦
      let l = ltb→lt id (length q.segment.accounts) e in
      rw e (elim c.0 [ inl k ↦ inr (omega arith) | inr k ↦ inl (omega arith) ])
  | inr e ↦ rw e (
      address-Outside p ps (id - length q.segment.accounts) c.1
        (behind (length q.segment.accounts) id (population (segments ps)) e h))
]

pub head-set_balance : (ps : List Place) (id v : ℕ) → head_of (set_balance ps id v) ≡ head_of ps
unfolding set_balance
head-set_balance [] id v = refl
head-set_balance (p ∷ ps) id v = elim (Bool-cases (ltb id (length p.segment.accounts))) [
  | inl e ↦ rw e refl
  | inr e ↦ rw e refl
]

-- In segments that do not overlap, a store to an account changes this one alone.
pub IsLaid-set_balance :
    (m : ℕ → ℕ) (ps : List Place) (id v : ℕ)
    → id < population (segments ps)
    → IsApart ps
    → IsLaid m ps
    → IsLaid (update m (address ps id) v) (set_balance ps id v)
unfolding IsLaid IsApart population segments address set_balance
IsLaid-set_balance m [] id v h c laid = tt
IsLaid-set_balance m (p ∷ ps) id v h c laid =
    let n = length p.segment.accounts in
    elim (Bool-cases (ltb id n)) [
      | inl e ↦
          let l = ltb→lt id n e in
          let a = accounts_at p.address id in
          rw e (
            laid.0,
            update_other m a v (count_at p.address) (λ z. absurd (omega arith))
                ∙ laid.1
                ∙ sym (length-set_at p.segment.accounts id v),
            update_other m a v (parity_at p.address) (λ z. absurd (omega arith)) ∙ laid.2,
            AccountsAt-set_at m v p.address 0 id a p.segment.accounts (omega arith) l laid.3,
            update_other m a v (next_at p.address) (λ z. absurd (omega arith)) ∙ laid.4,
            IsLaid-far m a v p.address (end_of p) ps (omega arith) (omega arith) c.0 laid.5,
          )
      | inr e ↦
          let g = behind n id (population (segments ps)) e h in
          let a = address ps (id - n) in
          let o = address-Outside p ps (id - n) c.0 g in
          rw e (
            laid.0,
            kept m a v p (count_at p.address) o (omega arith) (omega arith) ∙ laid.1,
            kept m a v p (parity_at p.address) o (omega arith) (omega arith) ∙ laid.2,
            accounts_kept m a v p o laid.3,
            kept m a v p (next_at p.address) o (omega arith) (omega arith)
                ∙ laid.4
                ∙ sym (head-set_balance ps (id - n) v),
            IsLaid-set_balance m ps (id - n) v g c.1 laid.5,
          )
    ]

-- What a store leaves: the number of accounts, room between the segments.
pub population-set_balance :
    (ps : List Place) (id v : ℕ)
    → population (segments (set_balance ps id v)) ≡ population (segments ps)
unfolding population segments set_balance
population-set_balance [] id v = refl
population-set_balance (p ∷ ps) id v = elim (Bool-cases (ltb id (length p.segment.accounts))) [
  | inl e ↦ rw e (ap (λ n. n + population (segments ps)) (length-set_at p.segment.accounts id v))
  | inr e ↦ rw e (
      ap (λ n. length p.segment.accounts + n)
        (population-set_balance ps (id - length p.segment.accounts) v))
]

IsClear-set_balance :
    (low high : ℕ) (ps : List Place) (id v : ℕ)
    → IsClear low high ps
    → IsClear low high (set_balance ps id v)
unfolding IsClear set_balance
IsClear-set_balance low high [] id v c = tt
IsClear-set_balance low high (p ∷ ps) id v c =
    elim (Bool-cases (ltb id (length p.segment.accounts))) [
      | inl e ↦ rw (e, length-set_at p.segment.accounts id v) c
      | inr e ↦ rw e (c.0, IsClear-set_balance low high ps (id - length p.segment.accounts) v c.1)
    ]

pub IsApart-set_balance : (ps : List Place) (id v : ℕ) → IsApart ps → IsApart (set_balance ps id v)
unfolding IsApart set_balance
IsApart-set_balance [] id v c = tt
IsApart-set_balance (p ∷ ps) id v c =
    let n = length p.segment.accounts in
    elim (Bool-cases (ltb id n)) [
      | inl e ↦ rw (e, length-set_at p.segment.accounts id v) c
      | inr e ↦ rw e (
        IsClear-set_balance p.address (end_of p) ps (id - n) v c.0,
        IsApart-set_balance ps (id - n) v c.1,
      )
    ]

pub address-set_balance :
    (ps : List Place) (id v j : ℕ) → address (set_balance ps id v) j ≡ address ps j
unfolding address set_balance
address-set_balance [] id v j = refl
address-set_balance (p ∷ ps) id v j = elim (Bool-cases (ltb id (length p.segment.accounts))) [
  | inl e ↦ rw (e, length-set_at p.segment.accounts id v) refl
  | inr e ↦
      rw
        (
          e,
          address-set_balance ps (id - length p.segment.accounts) v (j - length p.segment.accounts),
        )
        refl
]

-- The word at an account's address is its balance.
pub balance_lem :
    (m : ℕ → ℕ) (ps : List Place) (id : ℕ)
    → id < population (segments ps)
    → IsLaid m ps
    → m (address ps id) ≡ balance ps id
unfolding IsLaid population segments address balance
balance_lem m [] id h laid = absurd (omega arith)
balance_lem m (p ∷ ps) id h laid =
    let n = length p.segment.accounts in
    elim (Bool-cases (ltb id n)) [
      | inl e ↦ rw e (
          ap (λ a. m a) (omega arith)
          ∙ AccountsAt-get_at m p.address 0 id p.segment.accounts (ltb→lt id n e) laid.3)
      | inr e ↦ rw e (balance_lem m ps (id - n) (behind n id (population (segments ps)) e h) laid.5)
    ]

pub length-set_balance :
    (ps : List Place) (id v : ℕ) → length (segments (set_balance ps id v)) ≡ length (segments ps)
unfolding segments set_balance
length-set_balance [] id v = refl
length-set_balance (p ∷ ps) id v = elim (Bool-cases (ltb id (length p.segment.accounts))) [
  | inl e ↦ rw e refl
  | inr e ↦ rw e (ap suc (length-set_balance ps (id - length p.segment.accounts) v))
]
