-- ===== src/Core/TxPool/Examples.antt =====
-- Inputs at which the theorems on the pool apply, and runs of its methods.
use blbchain.Base.{◌≡◌, refl, [], ◌∷◌, none, some, false, length, String, string_eq}
use blbchain.Core.Transaction.{Transaction, new_transaction}
use blbchain.Core.TxPool.{
  TxPool, pack_txs_with_bytes, transfer_txs, add_txs, add_relay_tx, clear_relay_pool,
  pack_relay_txs, new_tx_pool,
}

abbrev pay : String → String → Transaction
pay a b = new_transaction (λ tx. tx.value ∷ []) a b 5 0 7

abbrev busy : TxPool
busy = record {
  tx_queue = pay "a" "b" ∷ pay "b" "c" ∷ pay "a" "c" ∷ [];
  relay_pool = some ((1, pay "a" "d" ∷ []) ∷ []);
}

pack_with_bytes_two : length (pack_txs_with_bytes 200 500 busy).0 ≡ 2
unfolding pack_txs_with_bytes
pack_with_bytes_two = refl

transfer_two : (transfer_txs "a" busy).0 ≡ pay "a" "b" ∷ pay "a" "c" ∷ pay "a" "d" ∷ []
unfolding transfer_txs new_transaction
transfer_two = refl

-- A write to the cleared relay pool panics.
add_relay_tx_cleared : add_relay_tx (pay "a" "b") 1 (clear_relay_pool busy) ≡ none
unfolding add_relay_tx clear_relay_pool
add_relay_tx_cleared = refl

pack_relay_too_few : (pack_relay_txs 1 2 5 busy).0 ≡ ([], false)
unfolding pack_relay_txs
pack_relay_too_few = refl

add_txs_stamps :
    (add_txs 9 (record (pay "a" "b") { time = 0 } ∷ []) new_tx_pool).tx_queue
    ≡ record (pay "a" "b") { time = 9 } ∷ []
unfolding add_txs new_tx_pool new_transaction
add_txs_stamps = refl
