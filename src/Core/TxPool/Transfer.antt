-- ===== src/Core/TxPool/Transfer.antt =====
-- `TransferTxs` against filtering all the pool's transactions by their sender.
use blbchain.Base.{
  ℕ, ◌≡◌, refl, ◌∙◌, inl, inr, Bool, not, List, [], ◌∷◌, ◌++◌, arith, filterb, Bool-cases, String,
  string_eq, ◌==◌, Map,
}
use blbchain.Core.Transaction.{Transaction}
use blbchain.Core.TxPool.{TxPool, entries, add_entry, split_sender, split_relay, transfer_txs}

-- The transactions of all shards' lists, in the map's order.
abbrev pub pooled : Map ℕ (List Transaction) → List Transaction
pooled [] = []
pooled ((shard, txs) ∷ m) = txs ++ pooled m

sent_by : String → Transaction → Bool
sent_by addr tx = tx.sender == addr

split_sender-filterb :
    (addr : String) (txs : List Transaction)
    → (split_sender addr txs
        ≡ (filterb (sent_by addr) txs, filterb (λ tx. not (sent_by addr tx)) txs))
unfolding split_sender sent_by
split_sender-filterb addr [] = refl
split_sender-filterb addr (tx ∷ txs) = elim (Bool-cases (tx.sender == addr)) [
  | inl t ↦ rw (split_sender-filterb addr txs) (rw t refl)
  | inr f ↦ rw (split_sender-filterb addr txs) (rw f refl)
]

filterb-append :
    (q : Transaction → Bool) (xs ys : List Transaction)
    → filterb q (xs ++ ys) ≡ filterb q xs ++ filterb q ys
filterb-append q [] ys = refl
filterb-append q (x ∷ xs) ys = ground (arith, filterb-append q xs ys)

pooled-add_entry :
    (shard : ℕ) (txs : List Transaction) (m : Map ℕ (List Transaction))
    → pooled (add_entry shard txs m) ≡ txs ++ pooled m
pooled-add_entry shard [] m = refl
pooled-add_entry shard (tx ∷ txs) m = refl

split_relay-filterb :
    (addr : String) (m : Map ℕ (List Transaction))
    → ((split_relay addr m).0 ≡ filterb (sent_by addr) (pooled m))
      × (pooled (split_relay addr m).1 ≡ filterb (λ tx. not (sent_by addr tx)) (pooled m))
unfolding split_relay
split_relay-filterb addr [] = (refl, refl)
split_relay-filterb addr ((shard, txs) ∷ m) =
    let (outs, stays) = split_relay-filterb addr m in
    let stay = λ (tx : Transaction). not (sent_by addr tx) in
    rw (split_sender-filterb addr txs) (
      rw (outs, filterb-append (sent_by addr) txs (pooled m)) refl,
      pooled-add_entry shard (filterb stay txs) (split_relay addr m).1
          ∙ rw (stays, filterb-append stay txs (pooled m)) refl,
    )

-- Re-sharding moves out exactly the transactions that the address sent, from the queue first and
-- then from the relay pool, and leaves exactly the others, all in their order.
pub transfer_txs-filterb :
    (addr : String) (p : TxPool)
    → let r = transfer_txs addr p in
      (r.0 ≡ filterb (λ tx. tx.sender == addr) (p.tx_queue ++ pooled (entries p)))
      × (r.1.tx_queue ++ pooled (entries r.1)
          ≡ filterb (λ tx. not (tx.sender == addr)) (p.tx_queue ++ pooled (entries p)))
unfolding transfer_txs sent_by
transfer_txs-filterb addr p =
    let (outs, stays) = split_relay-filterb addr (entries p) in
    let stay = λ (tx : Transaction). not (sent_by addr tx) in
    rw (split_sender-filterb addr p.tx_queue) (
      rw (outs, filterb-append (sent_by addr) p.tx_queue (pooled (entries p))) refl,
      rw (stays, filterb-append stay p.tx_queue (pooled (entries p))) refl,
    )
