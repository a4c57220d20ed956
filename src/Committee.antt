-- ===== src/Committee.antt =====
-- supervisor/committee: what the committees share, as committee_relay.go has it. `none` is where the program
-- stops. A message to a shard goes to its first node.
pub mod Sending
pub mod Dataset
pub mod Clpa
pub mod Placement
pub mod Broker
pub mod Answers
pub mod ClpaBroker
mod Examples
use Prim.Native.String.{len, slice}
use blbchain.Base.{
  ℕ, zero, suc, ◌+◌, ◌%◌, String, string_eq, nat_eq, Bool, true, false, not, ◌&&◌, ◌||◌, ◌==◌,
  Option, none, some, ◌>>=◌, List, [], ◌∷◌, ◌++◌, Map, lookup, insert, or_zero, ltb, nat_beq,
  if◌then◌else◌, length, get_elem?, Bytes,
}
use blbchain.Core.Transaction.{Transaction, new_transaction}

pub record InjectTxs : Type 0 where
  pub txs : List Transaction
  pub to_shard_id : ℕ

-- `m[k] = append(m[k], a)`.
unfoldable pub append_at : ℕ → Transaction → Map ℕ (List Transaction) → Map ℕ (List Transaction)
unfolding lookup insert
append_at k a m = insert k (or_zero (lookup k m) [] ++ a ∷ []) m

-- The loop over the shards `sid`, `sid + 1`, ..., `n` of them.
unfoldable pub inject_all : ℕ → ℕ → Map ℕ (List Transaction) → List InjectTxs
unfolding lookup
inject_all sid zero send_to_shard = []
inject_all sid (suc n) send_to_shard =
    record { txs = or_zero (lookup sid send_to_shard) []; to_shard_id = sid }
    ∷ inject_all (suc sid) n send_to_shard

-- `txSending`: `route` is the shard that the committee picks for a transaction. The index is `idx`; the
-- transactions from there on are left.
module _ (shard_num inject_speed : ℕ) (route : Transaction → ℕ) where
  unfoldable pub injection_loop :
      ℕ → Map ℕ (List Transaction) → List Transaction → Option (List InjectTxs)
  unfolding append_at inject_all
  injection_loop idx send_to_shard [] =
      if ltb 0 idx
      then (if nat_beq inject_speed 0 then none else some (inject_all 0 shard_num send_to_shard))
      else some []
  injection_loop idx send_to_shard (tx ∷ rest) =
      let full = ltb 0 idx && nat_beq (idx % inject_speed) 0 in
      let kept = if full then [] else send_to_shard in
      if ltb 0 idx && nat_beq inject_speed 0
      then none
      else (injection_loop (suc idx) (append_at (route tx) tx kept) rest >>= λ later.
          some ((if full then inject_all 0 shard_num send_to_shard else []) ++ later))

  unfoldable pub tx_sending : List Transaction → Option (List InjectTxs)
  unfolding injection_loop
  tx_sending txlist = injection_loop 0 [] txlist

-- What the code takes from Go: `big.Int.SetString` at base 10, the hash of a transaction, and the clock as the
-- transaction with a nonce is made.
pub record DataLibrary : Type 0 where
  pub set_string : String → Option ℕ
  pub hash : Transaction → Bytes
  pub clock : ℕ → ℕ

-- The first two fields that it tests, the second only where the first holds.
abbrev pub both_zero : List String → Option Bool
both_zero row = do
  d6 ← get_elem? row 6
  if d6 == "0" then (get_elem? row 7 >>= λ d7. some (d7 == "0")) else some false

unfoldable pub data2tx : DataLibrary → List String → ℕ → Option (Option Transaction)
unfolding new_transaction
data2tx lib row nonce = do
  plain ← both_zero row
  d3 ← get_elem? row 3
  d4 ← get_elem? row 4
  if plain && ltb 16 (len d3) && ltb 16 (len d4) && not (d3 == d4)
      then (do
        d8 ← get_elem? row 8
        val ← lib.set_string d8
        some (
            some (
              new_transaction lib.hash (slice d3 2 (len d3)) (slice d4 2 (len d4)) val nonce
                (lib.clock nonce))))
      else some none

-- The variables of `MsgSendingControl` that the loop changes.
pub record Reading : Type 0 where
  pub txlist : List Transaction
  pub now_data_num : ℕ

abbrev pub read_tx : Option Transaction → Reading → Reading
read_tx none r = r
read_tx (some tx) r = record { txlist = r.txlist ++ tx ∷ []; now_data_num = r.now_data_num + 1 }

-- The loop of the relay committee's `MsgSendingControl` over the rows of the data set: what each call of
-- `txSending` sends, after which it resets the stop signal. A row that cannot be read stops the program.
module _ (lib : DataLibrary) (send : List Transaction → Option (List InjectTxs))
    (batch_data_num data_total_num : ℕ) where
  unfoldable pub msg_sending_control :
      List (Option (List String)) → Reading → Option (List (List InjectTxs))
  unfolding data2tx
  msg_sending_control [] r = some []
  msg_sending_control (read ∷ rows) r = do
    row ← read
    tx ← data2tx lib row r.now_data_num
    let r' = read_tx tx r
    elim (nat_beq (length r'.txlist) batch_data_num || nat_beq r'.now_data_num data_total_num) [
      | true ↦ do
        sent ← send r'.txlist
        elim (nat_beq r'.now_data_num data_total_num) [
          | true ↦ some (sent ∷ [])
          | false ↦ do
            later ← msg_sending_control rows (record r' { txlist = [] })
            some (sent ∷ later)
        ]
      | false ↦ msg_sending_control rows r'
    ]
