-- ===== src/Core/TxPool/Packing.antt =====
-- What `PackTxs` and `PackTxsWithBytes` take from the queue, and what they leave.
use blbchain.Base.{
  ℕ, suc, ◌+◌, ◌*◌, ◌≤◌, ◌<◌, ◌≡◌, refl, ◌⊎◌, inl, inr, min, List, [], ◌∷◌, ◌++◌, arith, length,
  take, length-take, take-append-drop, ltb, Bool-cases, ltb→lt,
}
use blbchain.Core.Transaction.{Transaction}
use blbchain.Core.TxPool.{TxPool, clip, pack_txs, fit_count, pack_txs_with_bytes}

clip-min : (limit : ℕ) (q : List Transaction) → clip limit q ≡ min limit (length q)
unfolding clip
clip-min limit q = ground arith

-- Packing by number splits the queue in order: the packed transactions are the front of the queue,
-- as many as the limit and the length allow, the rest stays, and the relay pool is left alone.
pub pack_txs-splits :
    (max_txs : ℕ) (p : TxPool)
    → ((pack_txs max_txs p).0 ++ (pack_txs max_txs p).1.tx_queue ≡ p.tx_queue)
      × (length (pack_txs max_txs p).0 ≡ min max_txs (length p.tx_queue))
      × ((pack_txs max_txs p).1.relay_pool ≡ p.relay_pool)
unfolding pack_txs
pack_txs-splits max_txs p = (
  take-append-drop (clip max_txs p.tx_queue) p.tx_queue,
  omega (arith, length-take (clip max_txs p.tx_queue) p.tx_queue, clip-min max_txs p.tx_queue),
  refl,
)

-- What the loop returns, from any size and index that it has reached.
abbrev Fits : ℕ → ℕ → ℕ → ℕ → ℕ → Type 0
Fits tx_size max_bytes size n len =
    (n ≤ len)
    × (size + n * tx_size ≤ max_bytes)
    × ((n ≡ len) ⊎ (max_bytes < size + (n + 1) * tx_size))

fit_count-Fits :
    (tx_size max_bytes size idx : ℕ) (txs : List Transaction)
    → size ≤ max_bytes
    → (n : ℕ) × (fit_count tx_size max_bytes size idx txs ≡ idx + n)
      × Fits tx_size max_bytes size n (length txs)
unfolding fit_count
fit_count-Fits s m size idx [] h = (0, omega arith, (omega arith, omega arith, inl refl))
fit_count-Fits s m size idx (tx ∷ txs) h = elim (Bool-cases (ltb m (size + s))) [
  | inl t ↦ (0, rw t (omega arith), (omega arith, omega arith, inr (omega (arith, ltb→lt _ _ t))))
  | inr f ↦
      let (n, e, (a, b, c)) = fit_count-Fits s m (size + s) (idx + 1) txs (ground arith) in
      (suc n, rw f (omega (arith, e)), (omega arith, omega arith, omega arith))
]

-- Packing by bytes splits the queue in order; the packed transactions fit into the limit together,
-- and either the whole queue is packed or one transaction more would pass the limit.
pub pack_txs_with_bytes-splits :
    (tx_size max_bytes : ℕ) (p : TxPool)
    → let r = pack_txs_with_bytes tx_size max_bytes p in
      (r.0 ++ r.1.tx_queue ≡ p.tx_queue)
      × (length r.0 * tx_size ≤ max_bytes)
      × ((length r.0 ≡ length p.tx_queue) ⊎ (max_bytes < (length r.0 + 1) * tx_size))
unfolding pack_txs_with_bytes
pack_txs_with_bytes-splits s m p =
    let (n, e, f) = fit_count-Fits s m 0 0 p.tx_queue (omega arith) in
    let len : length (take (fit_count s m 0 0 p.tx_queue) p.tx_queue) ≡ n =
      omega (arith, length-take (fit_count s m 0 0 p.tx_queue) p.tx_queue) in
    (
      take-append-drop (fit_count s m 0 0 p.tx_queue) p.tx_queue,
      rw len (omega arith),
      rw len (omega arith),
    )
