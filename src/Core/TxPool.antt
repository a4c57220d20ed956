-- ===== src/Core/TxPool.antt =====
-- core/txpool.go. A method returns the new pool; the mutex makes each method one step. `none` for
-- the relay pool is Go's nil map: it reads as empty, and a write to it panics, which `none` as the
-- result of `add_relay_tx` and `pack_relay_txs` stands for.
pub mod Packing
pub mod Transfer
mod Examples
use blbchain.Base.{
  ℕ, ◌+◌, ◌*◌, ◌-◌, ltb, leb, nat_beq, ◌==◌, if◌then◌else◌, is_some, or_zero, Bool, true, false,
  Option, none, some, List, [], ◌∷◌, ◌++◌, map, flat_map, String, string_eq, nat_eq, Map, lookup,
  insert, length, take, drop, filterb, not,
}
use blbchain.Core.Transaction.{Transaction}

pub record TxPool : Type 0 where
  pub tx_queue : List Transaction
  pub relay_pool : Option (Map ℕ (List Transaction))

unfoldable pub new_tx_pool : TxPool
new_tx_pool = record { tx_queue = []; relay_pool = some [] }

-- A transaction without a time gets the current one.
unfoldable pub stamp : ℕ → Transaction → Transaction
stamp now tx = if nat_beq tx.time 0 then record tx { time = now } else tx

unfoldable pub add_tx : ℕ → Transaction → TxPool → TxPool
unfolding stamp
add_tx now tx p = record p { tx_queue = p.tx_queue ++ stamp now tx ∷ [] }

-- `now` is the clock's reading, which the model holds still during the loop.
unfoldable pub add_txs_loop : ℕ → List Transaction → List Transaction → List Transaction
unfolding stamp
add_txs_loop now [] queue = queue
add_txs_loop now (tx ∷ txs) queue = add_txs_loop now txs (queue ++ stamp now tx ∷ [])

unfoldable pub add_txs : ℕ → List Transaction → TxPool → TxPool
unfolding add_txs_loop
add_txs now txs p = record p { tx_queue = add_txs_loop now txs p.tx_queue }

unfoldable pub add_txs_head : List Transaction → TxPool → TxPool
add_txs_head txs p = record p { tx_queue = txs ++ p.tx_queue }

-- The smaller of the limit and the length.
unfoldable pub clip : ℕ → List Transaction → ℕ
clip limit q = if ltb (length q) limit then length q else limit

unfoldable pub pack_txs : ℕ → TxPool → List Transaction × TxPool
unfolding clip
pack_txs max_txs p =
    let tx_num = clip max_txs p.tx_queue in
    (take tx_num p.tx_queue, record p { tx_queue = drop tx_num p.tx_queue })

-- The loop's `txNum`: the index of the first transaction that does not fit, or else the length.
-- `tx_size` is `unsafe.Sizeof(*tx)`, one constant for the type.
unfoldable pub fit_count : ℕ → ℕ → ℕ → ℕ → List Transaction → ℕ
fit_count tx_size max_bytes size idx [] = idx
fit_count tx_size max_bytes size idx (tx ∷ txs) =
    let rest = fit_count tx_size max_bytes (size + tx_size) (idx + 1) txs in
    if ltb max_bytes (size + tx_size) then idx else rest

unfoldable pub pack_txs_with_bytes : ℕ → ℕ → TxPool → List Transaction × TxPool
unfolding fit_count
pack_txs_with_bytes tx_size max_bytes p =
    let tx_num = fit_count tx_size max_bytes 0 0 p.tx_queue in
    (take tx_num p.tx_queue, record p { tx_queue = drop tx_num p.tx_queue })

-- Reading a nil map finds nothing.
abbrev pub entries : TxPool → Map ℕ (List Transaction)
entries p = or_zero p.relay_pool []

unfoldable pub relay_txs : ℕ → TxPool → List Transaction
unfolding lookup
relay_txs shard p = or_zero (lookup shard (entries p)) []

unfoldable pub add_relay_tx : Transaction → ℕ → TxPool → Option TxPool
unfolding relay_txs insert
add_relay_tx tx shard p = elim p.relay_pool [
  | none ↦ none
  | some m ↦ some (record p { relay_pool = some (insert shard (relay_txs shard p ++ tx ∷ []) m) })
]

unfoldable pub get_tx_queue_len : TxPool → ℕ
get_tx_queue_len p = length p.tx_queue

unfoldable pub clear_relay_pool : TxPool → TxPool
clear_relay_pool p = record p { relay_pool = none }

-- The second part is the code's success flag. A found key shows that the map is not nil.
unfoldable pub pack_relay_txs : ℕ → ℕ → ℕ → TxPool → (List Transaction × Bool) × TxPool
unfolding lookup insert clip
pack_relay_txs shard min_size max_size p = elim (lookup shard (entries p)) [
  | none ↦ (([], false), p)
  | some txs ↦ if ltb (length txs) min_size then (([], false), p) else (
    (take (clip max_size txs) txs, true),
    record p { relay_pool = some (insert shard (drop (clip max_size txs) txs) (entries p)) },
  )
]

-- The inner loop over one shard's list: what leaves, and what stays.
unfoldable pub split_sender : String → List Transaction → List Transaction × List Transaction
split_sender addr [] = ([], [])
split_sender addr (tx ∷ txs) =
    let (out, stay) = split_sender addr txs in
    if tx.sender == addr then (tx ∷ out, stay) else (out, tx ∷ stay)

-- A shard's entry is made when its first transaction stays.
abbrev pub add_entry : ℕ → List Transaction → Map ℕ (List Transaction) → Map ℕ (List Transaction)
add_entry shard [] m = m
add_entry shard (tx ∷ txs) m = (shard, tx ∷ txs) ∷ m

unfoldable pub split_relay :
    String → Map ℕ (List Transaction) → List Transaction × Map ℕ (List Transaction)
unfolding split_sender
split_relay addr [] = ([], [])
split_relay addr ((shard, txs) ∷ m) =
    let (out, stay) = split_sender addr txs in
    let (outs, stays) = split_relay addr m in (out ++ outs, add_entry shard stay stays)

unfoldable pub transfer_txs : String → TxPool → List Transaction × TxPool
unfolding split_sender split_relay
transfer_txs addr p =
    let (out, stay) = split_sender addr p.tx_queue in
    let (outs, stays) = split_relay addr (entries p) in
    (out ++ outs, record { tx_queue = stay; relay_pool = some stays })
