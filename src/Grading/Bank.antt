-- ===== src/Grading/Bank.antt =====
-- The transactions of `WorkloadBank` (grading/workload.hpp).
pub mod Audit
pub mod Start
pub mod Transfer
pub mod Worker
pub mod Layout
pub mod Short
pub mod Alloc
mod Examples
pub mod Countdown
use performant_transactional.Base.{
  ℕ, zero, suc, ◌+◌, ◌*◌, Bool, true, false, not, ◌&&◌, Option, none, some, ◌==◌, ltb,
  if◌then◌else◌,
}
use performant_transactional.Process.{ret, ◌>>=◌, ◌>>◌}
use performant_transactional.Grading.Shared.{
  word_size, add_word, sub_word, mul_word, is_negative, Tx, after, element, read_cell, write_cell,
  alloc_cell, free_cell,
}

-- `AccountSegment`: the addresses of its cells.
abbrev pub count_at : ℕ → ℕ
count_at address = address

abbrev pub next_at : ℕ → ℕ
next_at address = after (count_at address)

abbrev pub parity_at : ℕ → ℕ
parity_at address = after (next_at address)

abbrev pub accounts_at : ℕ → ℕ → ℕ
accounts_at address i = element (after (parity_at address)) i

-- `AccountSegment::size`: sizeof(Dummy) is three words.
unfoldable pub segment_size : ℕ → ℕ
segment_size nbaccounts = 24 + nbaccounts * word_size

-- Parameters of the workload that its transactions read.
pub record Bank : Type 0 where
  pub nbaccounts : ℕ
  pub init_balance : ℕ
  pub start : ℕ  -- `tm.get_start()`

-- The loop over the accounts of a segment: `none` if one has a negative balance.
unfoldable pub sum_accounts : ℕ → ℕ → ℕ → ℕ → Tx (Option ℕ)
sum_accounts zero i segment sum = ret (some sum)
sum_accounts (suc n) i segment sum = do
  local ← read_cell (accounts_at segment i)
  let next = sum_accounts n (i + 1) segment (add_word sum local)
  if is_negative local then ret none else next

-- After the accounts of a segment, on to the next one.
unfoldable pub after_accounts :
    (ℕ → ℕ → Tx (Option (Option (ℕ × ℕ)))) → ℕ → Option ℕ → Tx (Option (Option (ℕ × ℕ)))
after_accounts onward start none = ret (some none)
after_accounts onward start (some sum) = do next ← read_cell (next_at start); onward next sum

-- The loop over the segments, on fuel: `none` if it ran out. Otherwise the total count and sum, or
-- `none` for a negative balance.
unfoldable pub long_loop : ℕ → ℕ → ℕ → ℕ → Tx (Option (Option (ℕ × ℕ)))
long_loop zero start count sum = ret none
long_loop (suc fuel) start count sum =
    let body = (do
      segment_count ← read_cell (count_at start)
      parity ← read_cell (parity_at start)
      total ← sum_accounts segment_count 0 start (add_word sum parity)
      after_accounts (λ next sum'. long_loop fuel next (add_word count segment_count) sum') start
          total) in
    if start == 0 then ret (some (some (count, sum))) else body

-- What `long_tx` returns, and its argument `nbaccounts` afterwards.
unfoldable pub long_result : ℕ → ℕ → Option (ℕ × ℕ) → Bool × ℕ
long_result init_balance nbaccounts none = (false, nbaccounts)
long_result init_balance nbaccounts (some (count, sum)) =
    (sum == mul_word init_balance count, count)

unfoldable pub long_end : ℕ → ℕ → Option (Option (ℕ × ℕ)) → Tx (Option (Bool × ℕ))
long_end init_balance nbaccounts none = ret none
long_end init_balance nbaccounts (some found) =
    ret (some (long_result init_balance nbaccounts found))

unfoldable pub long_tx : ℕ → Bank → ℕ → Tx (Option (Bool × ℕ))
long_tx fuel b nbaccounts = do r ← long_loop fuel b.start 0 0; long_end b.init_balance nbaccounts r

-- `alloc_tx` at the last segment: remove its last account.
unfoldable pub remove_account : Bank → ℕ → ℕ → ℕ → Tx (Unit {0})
remove_account b prev start segment_count = do
  parity ← read_cell (parity_at start)
  balance ← read_cell (accounts_at start segment_count)
  let new_parity = sub_word (add_word parity balance) b.init_balance
  if ltb 0 segment_count
      then (do write_cell (count_at start) segment_count; write_cell (parity_at start) new_parity)
      else (do
        free_cell (next_at prev)
        prev_parity ← read_cell (parity_at prev)
        write_cell (parity_at prev) (add_word prev_parity new_parity))

-- `alloc_tx` at the last segment: add an account, in a new segment if this one is full.
unfoldable pub add_account : Bank → ℕ → ℕ → Tx (Unit {0})
add_account b start segment_count =
    if ltb segment_count b.nbaccounts
    then (do
      write_cell (accounts_at start segment_count) b.init_balance
      write_cell (count_at start) (add_word segment_count 1))
    else (do
      next ← alloc_cell (next_at start) (segment_size b.nbaccounts)
      write_cell (count_at next) 1
      write_cell (accounts_at next 0) b.init_balance)

unfoldable pub alloc_loop : ℕ → Bank → ℕ → ℕ → ℕ → ℕ → Tx (Option (Unit {0}))
alloc_loop zero b trigger count prev start = ret none
alloc_loop (suc fuel) b trigger count prev start = do
  segment_count ← read_cell (count_at start)
  let count' = add_word count segment_count
  segment_next ← read_cell (next_at start)
  let onward = alloc_loop fuel b trigger count' start segment_next
  if segment_next == 0
      then (do
        if ltb trigger count' && ltb 2 count'
            then remove_account b prev start (sub_word segment_count 1)
            else add_account b start segment_count
        ret (some tt))
      else onward

unfoldable pub alloc_tx : ℕ → Bank → ℕ → Tx (Option (Unit {0}))
alloc_tx fuel b trigger = alloc_loop fuel b trigger 0 0 b.start

-- Where an account is, once it is found, or else its index from here on.
pub record Search : Type 0 where
  pub ptr : ℕ  -- null until it is found
  pub index : ℕ

-- One of the two searches of `short_tx`, in one segment.
unfoldable pub look : ℕ → ℕ → Search → Search
look start segment_count a =
    if a.ptr == 0
    then (if ltb a.index segment_count
        then record a { ptr = accounts_at start a.index }
        else record a { index = sub_word a.index segment_count })
    else a

-- The search for both accounts, on fuel: `none` if it ran out. Otherwise their addresses, or `none`
-- if one of them does not exist.
unfoldable pub find_accounts : ℕ → ℕ → Search → Search → Tx (Option (Option (ℕ × ℕ)))
find_accounts zero start send recv = ret none
find_accounts (suc fuel) start send recv = do
  segment_count ← read_cell (count_at start)
  let send' = look start segment_count send
  let recv' = look start segment_count recv
  let onward = (do
    next ← read_cell (next_at start)
    let further = find_accounts fuel next send' recv'
    if next == 0 then ret (some none) else further)
  if ltb 0 send'.ptr && ltb 0 recv'.ptr then ret (some (some (send'.ptr, recv'.ptr))) else onward

-- `v > 0` of a Balance
unfoldable pub is_positive : ℕ → Bool
is_positive v = ltb 0 v && not (is_negative v)

-- The transfer of one unit, if there is one.
unfoldable pub transfer : ℕ → ℕ → Tx (Unit {0})
transfer sender recver = do
  send_val ← read_cell sender
  if is_positive send_val
      then (do
        write_cell sender (sub_word send_val 1)
        recv_val ← read_cell recver
        write_cell recver (add_word recv_val 1))
      else ret tt

-- After the search: the transfer, if both accounts exist.
abbrev pub settle : Option (Option (ℕ × ℕ)) → Tx (Option Bool)
settle none = ret none
settle (some none) = ret (some false)
settle (some (some (send_ptr, recv_ptr))) = do transfer send_ptr recv_ptr; ret (some true)

unfoldable pub short_tx : ℕ → Bank → ℕ → ℕ → Tx (Option Bool)
short_tx fuel b send_id recv_id = do
  found ←
      find_accounts fuel b.start (record { ptr = 0; index = send_id })
        (record { ptr = 0; index = recv_id })
  settle found

-- The loop of `init` over the accounts from `i` on.
unfoldable pub fill_accounts : ℕ → ℕ → ℕ → ℕ → Tx (Unit {0})
fill_accounts zero i segment init_balance = ret tt
fill_accounts (suc n) i segment init_balance = do
  write_cell (accounts_at segment i) init_balance
  fill_accounts n (i + 1) segment init_balance

-- The two transactions of `init`: `init_tx` sets up the accounts, and `init_check_tx` reads the first of
-- them.
unfoldable pub init_tx : Bank → Tx (Unit {0})
init_tx b = do
  write_cell (count_at b.start) b.nbaccounts
  fill_accounts b.nbaccounts 0 b.start b.init_balance

unfoldable pub init_check_tx : Bank → Tx Bool
init_check_tx b = do balance ← read_cell (accounts_at b.start 0); ret (balance == b.init_balance)

-- The transactions of `check` on its counter.
unfoldable pub set_counter_tx : ℕ → ℕ → Tx (Unit {0})
set_counter_tx start init_counter = write_cell start init_counter

unfoldable pub counter_is_tx : ℕ → ℕ → Tx Bool
counter_is_tx start value = do counter ← read_cell start; ret (counter == value)

unfoldable pub last_tx : ℕ → Tx ℕ
last_tx start = read_cell start

unfoldable pub decrease_tx : ℕ → ℕ → Tx Bool
decrease_tx start last = do
  value ← read_cell start
  if ltb last value then ret false else (do write_cell start (sub_word value 1); ret true)
