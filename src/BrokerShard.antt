-- ===== src/BrokerShard.antt =====
-- A shard's part in transactions over brokers: consensus_shard/pbft_all/pbftInside_moduleBroker.go and
-- pbftOutside_moduleBroker.go. `decode` reads a block from a request's content. `none` is where the program stops.
pub mod Halves
pub mod Answered
mod Examples
use blbchain.Base.{
  ℕ, zero, suc, ◌+◌, ◌-◌, ◌^◌, ◌%◌, Bool, true, false, not, ◌&&◌, Option, none, some, ◌>>=◌, List,
  [], ◌∷◌, Bytes, bytes_eq, string_eq, nat_eq, ◌==◌, Map, lookup, insert, length, get_elem?,
  nat_beq, if◌then◌else◌,
}
use blbchain.Core.Transaction.{Transaction}
use blbchain.Core.Block.{Block}
use blbchain.Chain.State.{Library, BlockChain, send_tx2pool}
use blbchain.Chain.Blocks.{add_block, is_valid_block}
use blbchain.Pbft.Node.{
  u64, Request, RequestType, block_request, partition_req, other_request, PrePrepare,
  SendOldMessage,
}
use blbchain.Relay.{Outside}
use blbchain.Committee.{InjectTxs}
use blbchain.Committee.Broker.{BrokerBlockInfo}

-- The lists that the loop of `HandleinCommit` fills.
pub record Sorted : Type 0 where
  pub inner_shard : List Transaction
  pub broker1 : List Transaction
  pub broker2 : List Transaction

-- A raw hash that is nil reads as an empty one.
abbrev pub is_inner_shard_tx : Transaction → Bool
is_inner_shard_tx tx = tx.raw_tx_hash == []

unfoldable pub is_broker1_tx : Transaction → Bool
is_broker1_tx tx = not (is_inner_shard_tx tx) && tx.sender == tx.original_sender

unfoldable pub is_broker2_tx : Transaction → Bool
is_broker2_tx tx = not (is_inner_shard_tx tx) && tx.recipient == tx.final_recipient

unfoldable pub sort_txs : List Transaction → Sorted
unfolding is_broker1_tx is_broker2_tx
sort_txs [] = record { inner_shard = []; broker1 = []; broker2 = [] }
sort_txs (tx ∷ txs) =
    let rest = sort_txs txs in
    if is_broker2_tx tx
    then record rest { broker2 = tx ∷ rest.broker2 }
    else if is_broker1_tx tx
    then record rest { broker1 = tx ∷ rest.broker1 }
    else record rest { inner_shard = tx ∷ rest.inner_shard }

pub record SeqIdInfo : Type 0 where
  pub sender_shard_id : ℕ
  pub sender_seq : ℕ

-- The loop over the shards `sid`, `sid + 1`, ..., `n` of them.
unfoldable pub seq_id_msgs : ℕ → ℕ → ℕ → ℕ → List (ℕ × SeqIdInfo)
seq_id_msgs shard seq sid zero = []
seq_id_msgs shard seq sid (suc n) =
    let rest = seq_id_msgs shard seq (suc sid) n in
    if nat_beq sid shard
    then rest
    else (sid, record { sender_shard_id = shard; sender_seq = seq }) ∷ rest

pub record BrokerCommitted : Type 0 where
  pub chain : BlockChain
  pub msgs : List (ℕ × SeqIdInfo)
  pub info : Option BrokerBlockInfo

module _ (lib : Library) (decode : Bytes → Block) where
  -- The verdict, and the pool of requests.
  unfoldable pub broker_handle_in_pre_prepare :
      PrePrepare → Map Bytes Request → BlockChain → Bool × Map Bytes Request
  unfolding is_valid_block insert
  broker_handle_in_pre_prepare ppmsg request_pool bc =
      if not (is_valid_block lib (decode ppmsg.request_msg.content) bc)
      then (false, request_pool)
      else (true, insert ppmsg.digest ppmsg.request_msg request_pool)

  -- `main` tells whether the node is the view's main node, `seq` is its sequence number. A digest that the
  -- pool lacks reads as a nil request, whose fields the code then reads.
  unfoldable pub broker_handle_in_commit :
      Bool → ℕ → Bytes → Map Bytes Request → BlockChain → Option BrokerCommitted
  unfolding lookup add_block sort_txs seq_id_msgs
  broker_handle_in_commit main seq digest request_pool bc = do
    r ← lookup digest request_pool
    let b = decode r.content
    bc' ← add_block lib b bc
    let sorted = sort_txs b.body
    if main
        then some (record {
          chain = bc';
          msgs = seq_id_msgs bc.shard_id seq 0 bc.shard_num;
          info = some (record {
            block_body_length = length b.body;
            inner_shard_txs = sorted.inner_shard;
            broker1_txs = sorted.broker1;
            broker2_txs = sorted.broker2;
            sender_shard_id = bc.shard_id;
          });
        })
        else some (record { chain = bc'; msgs = []; info = none })

  -- The loop of `HandleforSequentialRequest` from the request at index `i`, over `n` heights.
  unfoldable pub add_old_requests : ℕ → ℕ → List Request → BlockChain → Option BlockChain
  unfolding add_block
  add_old_requests i zero rs bc = some bc
  add_old_requests i (suc n) rs bc = do
    r ← get_elem? rs i
    bc' ← elim r.request_type [
      | block_request ↦ add_block lib (decode r.content) bc
      | partition_req ↦ some bc
      | other_request ↦ some bc
    ]
    add_old_requests (suc i) n rs bc'

  -- The chain, and the sequence number where it is set. The difference is of 64 bits and is read as an `int`, so one
  -- from 2 ^ 63 on is negative and no length.
  unfoldable pub broker_sequential_request :
      SendOldMessage → BlockChain → Option (BlockChain × Option ℕ)
  unfolding add_old_requests
  broker_sequential_request som bc =
      if not (
        nat_beq (u64 (som.seq_start_height + 2 ^ 64 - som.seq_end_height)) (length som.old_request))
      then some (bc, none)
      else (add_old_requests 0 (som.seq_end_height + 1 - som.seq_start_height) som.old_request bc
          >>= λ bc'. some (bc', some (u64 (som.seq_end_height + 1))))

unfoldable pub handle_seq_id_infos : SeqIdInfo → Outside → Outside
unfolding insert
handle_seq_id_infos sii o = record o {
  seq_id_map = insert sii.sender_shard_id sii.sender_seq o.seq_id_map;
}

unfoldable pub broker_handle_inject_tx : ℕ → InjectTxs → Outside → Outside
unfolding send_tx2pool
broker_handle_inject_tx now m o = record o { chain = send_tx2pool now m.txs o.chain }
