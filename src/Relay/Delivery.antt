-- ===== src/Relay/Delivery.antt =====
-- What `HandleinCommit` sends to the other shards, and what arrives there.
use blbchain.Base.{
  ℕ, zero, suc, ◌+◌, ◌≤◌, ◌<◌, ◌≡◌, ◌≢◌, refl, sym, ap, ◌∙◌, inl, inr, Bool, none, some, >>=-some,
  List, [], ◌∷◌, ◌++◌, append_assoc, append-nil, map, filterb, All, upto, not, nat_eq, nat_beq,
  nat_beq_iff, if◌then◌else◌, Bool-cases, lookup, arith,
}
use blbchain.Core.Transaction.{Transaction}
use blbchain.Core.TxPool.{TxPool, relay_txs, stamp, add_txs_loop}
use blbchain.Core.Block.{Block}
use blbchain.Chain.State.{Library, BlockChain, has_home, home_of}
use blbchain.Relay.{
  Relay, Routed, Committed, Outside, mark, route_txs, relay_msgs, relay_block, handle_relay,
}
use blbchain.Relay.Routes.{leaves_for, HaveHomes, route_txs-RoutesTo}

add_txs_loop-append :
    (now : ℕ) (txs queue : List Transaction)
    → add_txs_loop now txs queue ≡ queue ++ map (stamp now) txs
unfolding add_txs_loop
add_txs_loop-append now [] queue = sym (append-nil queue)
add_txs_loop-append now (tx ∷ txs) queue =
    add_txs_loop-append now txs (queue ++ stamp now tx ∷ [])
    ∙ append_assoc queue (stamp now tx ∷ []) (map (stamp now) txs)

abbrev message_for : ℕ → ℕ → TxPool → ℕ → Relay
message_for shard seq pool sid = record {
  txs = relay_txs sid pool;
  sender_shard_id = shard;
  sender_seq = seq;
}

-- The loop makes one message for each other shard.
lookup-relay_msgs :
    (shard seq : ℕ) (pool : TxPool) (k sid n : ℕ)
    → sid ≤ k
    → k < sid + n
    → k ≢ shard
    → lookup k (relay_msgs shard seq pool sid n) ≡ some (message_for shard seq pool k)
unfolding relay_msgs lookup
lookup-relay_msgs shard seq pool k sid zero low high other = absurd (omega arith)
lookup-relay_msgs shard seq pool k sid (suc n) low high other =
    elim (Bool-cases (nat_beq sid shard)) [
      | inl own ↦ rw own (
          lookup-relay_msgs shard seq pool k (sid + 1) n (ground (arith, other)) (omega arith)
            other)
      | inr foreign ↦ rw foreign (elim (Bool-cases (nat_beq sid k)) [
        | inl here ↦
            rw here (ap (λ s. some (message_for shard seq pool s)) ((nat_beq_iff sid k).0 here))
        | inr later ↦
            rw later
              (lookup-relay_msgs shard seq pool k (sid + 1) n (ground arith) (omega arith) other)
      ])
    ]

-- One message to each other shard, in the order of their numbers.
relay_msgs-upto :
    (shard seq : ℕ) (pool : TxPool) (sid n : ℕ)
    → map (λ m. m.0) (relay_msgs shard seq pool sid n)
      ≡ filterb (λ k. not (nat_beq k shard)) (upto sid n)
unfolding relay_msgs
relay_msgs-upto shard seq pool sid zero = refl
relay_msgs-upto shard seq pool sid (suc n) = elim (Bool-cases (nat_beq sid shard)) [
  | inl own ↦ rw own (next (relay_msgs-upto shard seq pool (sid + 1) n))
  | inr foreign ↦ rw foreign (ap (◌∷◌ sid) (next (relay_msgs-upto shard seq pool (sid + 1) n)))
]
  where
    following : sid + 1 ≡ suc sid
    following = omega arith

    next :
        map (λ m. m.0) (relay_msgs shard seq pool (sid + 1) n)
          ≡ filterb (λ k. not (nat_beq k shard)) (upto (sid + 1) n)
        → map (λ m. m.0) (relay_msgs shard seq pool (sid + 1) n)
          ≡ filterb (λ k. not (nat_beq k shard)) (upto (suc sid) n)
    next h = h ∙ ap (λ k. filterb (λ i. not (nat_beq i shard)) (upto k n)) following

map-stamp-mark :
    (now : ℕ) (txs : List Transaction)
    → map (stamp now) (map mark txs) ≡ map (λ tx. stamp now (mark tx)) txs
map-stamp-mark now [] = refl
map-stamp-mark now (tx ∷ txs) = ap (◌∷◌ (stamp now (mark tx))) (map-stamp-mark now txs)

handle_relay-append :
    (now : ℕ) (m : Relay) (o : Outside)
    → (handle_relay now m o).chain.tx_pool.tx_queue
      ≡ o.chain.tx_pool.tx_queue ++ map (stamp now) m.txs
unfolding handle_relay
handle_relay-append now m o = add_txs_loop-append now m.txs o.chain.tx_pool.tx_queue

module _ (lib : Library) (seq : ℕ) (b : Block) (added : Bool) (bc : BlockChain) where
  -- Where the program finds a shard for the sender and the recipient of each transaction of the block, the
  -- main node's part does not panic. It sends exactly one message to each other shard, with the block's
  -- transactions that belong here and leave for it, marked as relayed and in the block's order; the
  -- shard's queue gets them at its end, and the sender's relay pool is emptied and its queue kept.
  pub relay_block-delivers :
      All (HaveHomes (has_home lib bc)) b.body
      → (c : Committed) × (relay_block lib seq b added bc ≡ some c)
        × (c.chain.tx_pool.tx_queue ≡ bc.tx_pool.tx_queue)
        × (c.chain.tx_pool.relay_pool ≡ none)
        × (map (λ m. m.0) c.msgs
            ≡ filterb (λ sid. not (nat_beq sid bc.shard_id)) (upto 0 bc.shard_num))
        × ((sid now : ℕ) (o : Outside)
            → sid < bc.shard_num
            → sid ≢ bc.shard_id
            → (m : Relay) × (lookup sid c.msgs ≡ some m)
              × ((handle_relay now m o).chain.tx_pool.tx_queue
                  ≡ o.chain.tx_pool.tx_queue
                    ++ map
                        (λ tx. stamp now (mark tx))
                        (filterb (leaves_for (home_of lib bc) bc.shard_id sid) b.body)))
  unfolding relay_block
  relay_block-delivers homes =
      let home = home_of lib bc in
      let start : Routed = record {
        inter_shard = [];
        relay1 = [];
        relay2 = [];
        pool = record bc.tx_pool { relay_pool = some [] };
        body = [];
      } in
      let (r, went, v) =
        route_txs-RoutesTo home bc.shard_id (has_home lib bc) b.body start [] homes refl in
      let sending = record bc {
        tx_pool = r.pool;
        current_block = if added then record b { body = r.body } else bc.current_block;
      } in
      (
        _,
        >>=-some (route_txs (has_home lib bc) home bc.shard_id b.body start) _ went,
        v.queued,
        refl,
        relay_msgs-upto bc.shard_id seq r.pool 0 bc.shard_num,
        λ sid now o small other. (
          message_for bc.shard_id seq r.pool sid,
          lookup-relay_msgs bc.shard_id seq r.pool sid 0 bc.shard_num (omega arith) (omega arith)
              other,
          handle_relay-append now (message_for bc.shard_id seq r.pool sid) o
              ∙ ap (λ txs. o.chain.tx_pool.tx_queue ++ map (stamp now) txs) (v.pooled sid)
              ∙ ap (λ txs. o.chain.tx_pool.tx_queue ++ txs)
                  (map-stamp-mark now (filterb (leaves_for home bc.shard_id sid) b.body)),
        ),
      )
