-- ===== src/BrokerShard/Halves.antt =====
-- How a shard tells the two halves of a broker transaction apart: the committee's transactions in a block.
use blbchain.Base.{
  length-map, zero, suc, upto, filterb, not, nat_beq, Bool-cases, inl, inr, ap, ℕ, ◌≡◌, refl,
  string_eq, true, some, List, [], ◌∷◌, Bytes, bytes_eq, ◌==◌, beq_refl, beq_false, map, All, Map,
  lookup, length,
}
use blbchain.Core.Transaction.{Transaction}
use blbchain.Core.Block.{Block}
use blbchain.Chain.State.{Library, BlockChain}
use blbchain.Chain.Blocks.{add_block}
use blbchain.Pbft.Node.{Request}
use blbchain.Committee.Broker.{BrokerType1Meg, BrokerType2Meg, BrokerLibrary, tx1_of, tx2_of}
use blbchain.BrokerShard.{
  SeqIdInfo, Sorted, is_broker1_tx, is_broker2_tx, sort_txs, broker_handle_in_commit, seq_id_msgs,
}

-- Where a transaction of a block comes from: the data set, or the committee's handling of a raw message.
pub data Origin : Type 0 where
  from_data : Transaction → Origin
  first_half : BrokerType1Meg → Origin
  second_half : BrokerType2Meg → Origin

module _ (lib : BrokerLibrary) where
  abbrev pub tx_of : Origin → Transaction
  tx_of (from_data tx) = tx
  tx_of (first_half meg) = tx1_of lib meg
  tx_of (second_half meg) = tx2_of lib meg

  -- A transaction of the data set has no raw hash; a raw transaction has a hash, and its broker does not receive it.
  abbrev pub IsGenuine : Origin → Type 0
  IsGenuine (from_data tx) = tx.raw_tx_hash ≡ []
  IsGenuine (first_half meg) =
      (¬ (meg.raw_meg.tx.tx_hash ≡ [])) × ¬ (meg.broker ≡ meg.raw_meg.tx.recipient)
  IsGenuine (second_half meg) = ¬ (meg.raw_meg.tx.tx_hash ≡ [])

  -- The lists by origin.
  abbrev pub by_origin : List Origin → Sorted
  by_origin [] = record { inner_shard = []; broker1 = []; broker2 = [] }
  by_origin (from_data tx ∷ os) =
      let rest = by_origin os in record rest { inner_shard = tx ∷ rest.inner_shard }
  by_origin (first_half meg ∷ os) =
      let rest = by_origin os in record rest { broker1 = tx1_of lib meg ∷ rest.broker1 }
  by_origin (second_half meg ∷ os) =
      let rest = by_origin os in record rest { broker2 = tx2_of lib meg ∷ rest.broker2 }

  sort_txs-by_origin :
      (os : List Origin) → All IsGenuine os → sort_txs (map tx_of os) ≡ by_origin os
  unfolding sort_txs is_broker1_tx is_broker2_tx tx1_of tx2_of
  sort_txs-by_origin [] genuine = refl
  sort_txs-by_origin (from_data tx ∷ os) (here, rest) = rw (inner, sort_txs-by_origin os rest) refl
    where
      inner : (tx.raw_tx_hash == []) ≡ true
      inner = rw here refl
  sort_txs-by_origin (first_half meg ∷ os) (here, rest) =
      rw
        (
          beq_false meg.raw_meg.tx.tx_hash [] (here.0),
          beq_false meg.broker meg.raw_meg.tx.recipient (here.1),
          beq_refl (meg.raw_meg.tx.sender),
          sort_txs-by_origin os rest,
        )
        refl
  sort_txs-by_origin (second_half meg ∷ os) (here, rest) =
      rw
        (
          beq_false meg.raw_meg.tx.tx_hash [] here,
          beq_refl (meg.raw_meg.tx.recipient),
          sort_txs-by_origin os rest,
        )
        refl

-- The sequence number for each shard but `shard`, of `n` shards.
abbrev pub told_others : ℕ → ℕ → ℕ → List (ℕ × SeqIdInfo)
told_others shard n seq =
    map (λ sid. (sid, record { sender_shard_id = shard; sender_seq = seq }))
      (filterb (λ sid. not (nat_beq sid shard)) (upto 0 n))

seq_id_msgs-upto :
    (shard seq sid n : ℕ)
    → seq_id_msgs shard seq sid n
      ≡ map
          (λ k. (k, record { sender_shard_id = shard; sender_seq = seq }))
          (filterb (λ k. not (nat_beq k shard)) (upto sid n))
unfolding seq_id_msgs
seq_id_msgs-upto shard seq sid zero = refl
seq_id_msgs-upto shard seq sid (suc n) = elim (Bool-cases (nat_beq sid shard)) [
  | inl own ↦ rw own (seq_id_msgs-upto shard seq (suc sid) n)
  | inr other ↦ rw other (
      ap (◌∷◌ (sid, record { sender_shard_id = shard; sender_seq = seq }))
        (seq_id_msgs-upto shard seq (suc sid) n))
]

-- The main node's commit of a block whose transactions have these origins.
module _ (lib : BrokerLibrary) (chain_lib : Library) (decode : Bytes → Block) where
  -- The main node commits a request that its pool has, whose block its chain adds. Each transaction of the
  -- block is one of the data set without a raw hash, a first half that the committee made of a raw
  -- transaction that has a hash and is not received by the broker, or a second half of one that has a
  -- hash. Then the report's three lists are exactly these three kinds, each in the block's order, its
  -- length is the block's, and the sequence number is sent once to each shard but the node's own, and to
  -- no other.
  pub broker_handle_in_commit-by_origin :
      (seq : ℕ) (digest : Bytes) (request_pool : Map Bytes Request) (bc bc' : BlockChain)
      (r : Request) (os : List Origin)
      → lookup digest request_pool ≡ some r
      → add_block chain_lib (decode r.content) bc ≡ some bc'
      → (decode r.content).body ≡ map (tx_of lib) os
      → All (IsGenuine lib) os
      → broker_handle_in_commit chain_lib decode true seq digest request_pool bc
        ≡ some (record {
          chain = bc';
          msgs = told_others bc.shard_id bc.shard_num seq;
          info = some (record {
            block_body_length = length os;
            inner_shard_txs = (by_origin lib os).inner_shard;
            broker1_txs = (by_origin lib os).broker1;
            broker2_txs = (by_origin lib os).broker2;
            sender_shard_id = bc.shard_id;
          });
        })
  unfolding broker_handle_in_commit
  broker_handle_in_commit-by_origin seq digest request_pool bc bc' r os found added body genuine =
      rw
        (
          found,
          added,
          body,
          sort_txs-by_origin lib os genuine,
          length-map (tx_of lib) os,
          seq_id_msgs-upto bc.shard_id seq 0 bc.shard_num,
        )
        refl
