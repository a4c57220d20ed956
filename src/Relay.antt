-- ===== src/Relay.antt =====
-- Transactions between shards: consensus_shard/pbft_all/pbftInside_module.go, pbftOutside_module.go
-- and the relay functions of toolFuncs.go. `decode` reads a block from a request's content; sending is
-- the list of messages that a handler returns. `none` is where the code panics. Reports to the
-- supervisor hold the lists and numbers, not their JSON.
pub mod Routes
pub mod Money
pub mod Delivery
mod Examples
use blbchain.Base.{
  ℕ, zero, suc, ◌+◌, ◌-◌, ◌^◌, String, Bool, true, false, not, ◌&&◌, ◌||◌, Option, none, some,
  ◌>>=◌, List, [], ◌∷◌, ◌++◌, Bytes, bytes_eq, ◌==◌, nat_eq, nat_beq, if◌then◌else◌, Map, lookup,
  insert, length,
}
use blbchain.Core.Transaction.{Transaction}
use blbchain.Core.TxPool.{TxPool, add_relay_tx, relay_txs, clear_relay_pool, add_txs}
use blbchain.Core.Block.{Block}
use blbchain.Chain.State.{Library, BlockChain, has_home, home_of, send_tx2pool}
use blbchain.Chain.Blocks.{add_block, generate_block, is_valid_block}
use blbchain.Pbft.Node.{
  u64, Request, block_request, SendOldMessage, RequestType, partition_req, other_request,
}

pub record Relay : Type 0 where
  pub txs : List Transaction
  pub sender_shard_id : ℕ
  pub sender_seq : ℕ

-- The lists that the loop of `HandleinCommit` fills, and the pool that it changes.
pub record Routed : Type 0 where
  pub inter_shard : List Transaction
  pub relay1 : List Transaction
  pub relay2 : List Transaction
  pub pool : TxPool
  pub body : List Transaction  -- the block's transactions, some now marked

abbrev pub mark : Transaction → Transaction
mark tx = record tx { relayed = true }

module _ (home : String → ℕ) (shard : ℕ) where
  -- A transaction that the block should not hold is skipped.
  unfoldable pub misplaced : Transaction → Bool
  misplaced tx =
      (not tx.relayed && not (nat_beq (home tx.sender) shard))
      || (tx.relayed && not (nat_beq (home tx.recipient) shard))

  -- One round of the loop, with the shards of both addresses known; a write to a nil relay pool panics.
  unfoldable pub route_tx : Transaction → Routed → Option Routed
  unfolding misplaced add_relay_tx
  route_tx tx r =
      if misplaced tx
      then some (record r { body = r.body ++ tx ∷ [] })
      else if not (nat_beq (home tx.recipient) shard)
      then (add_relay_tx (mark tx) (home tx.recipient) r.pool >>= (λ pool. some (record r {
        relay1 = r.relay1 ++ mark tx ∷ [];
        pool = pool;
        body = r.body ++ mark tx ∷ [];
      })))
      else if tx.relayed
      then some (record r { relay2 = r.relay2 ++ tx ∷ []; body = r.body ++ tx ∷ [] })
      else some (record r { inter_shard = r.inter_shard ++ tx ∷ []; body = r.body ++ tx ∷ [] })

-- `home` is the shard that `Get_PartitionMap` finds, and `has_home` tells whether it finds one: where it does not, the
-- program stops.
module _ (has_home : String → Bool) (home : String → ℕ) (shard : ℕ) where
  unfoldable pub route_txs : List Transaction → Routed → Option Routed
  unfolding route_tx
  route_txs [] r = some r
  route_txs (tx ∷ txs) r =
      if has_home tx.sender && has_home tx.recipient
      then (route_tx home shard tx r >>= λ r'. route_txs txs r')
      else none

-- The loop of `RelayMsgSend` over the shards from `sid` on; `n` are left.
unfoldable pub relay_msgs : ℕ → ℕ → TxPool → ℕ → ℕ → List (ℕ × Relay)
unfolding relay_txs
relay_msgs shard seq pool sid zero = []
relay_msgs shard seq pool sid (suc n) =
    let rest = relay_msgs shard seq pool (sid + 1) n in
    if nat_beq sid shard
    then rest
    else (sid, record { txs = relay_txs sid pool; sender_shard_id = shard; sender_seq = seq })
      ∷ rest

unfoldable pub relay_msg_send : ℕ → BlockChain → List (ℕ × Relay) × BlockChain
unfolding relay_msgs clear_relay_pool
relay_msg_send seq bc = (
  relay_msgs bc.shard_id seq bc.tx_pool 0 bc.shard_num,
  record bc { tx_pool = clear_relay_pool bc.tx_pool },
)

-- What the main node reports of a block, with the times and sizes left out.
pub record BlockInfoMsg : Type 0 where
  pub block_body_length : ℕ
  pub inner_shard_txs : List Transaction
  pub relay1_txs : List Transaction
  pub relay2_txs : List Transaction
  pub sender_shard_id : ℕ

pub record Committed : Type 0 where
  pub chain : BlockChain
  pub msgs : List (ℕ × Relay)
  pub info : Option BlockInfoMsg

-- Does `AddBlock` put the block on top? Then the chain's current block is the block that the loop
-- marks.
unfoldable pub fits_on : Block → BlockChain → Bool
fits_on b bc =
    nat_beq b.header.number (bc.current_block.header.number + 1)
    && b.header.parent_block_hash == bc.current_block.hash

module _ (lib : Library) where
  -- The main node's part after the block is added, without Merkle proofs.
  unfoldable pub relay_block : ℕ → Block → Bool → BlockChain → Option Committed
  unfolding route_txs relay_msg_send home_of has_home
  relay_block seq b added bc = do
    r ← route_txs (has_home lib bc) (home_of lib bc) bc.shard_id b.body (record {
      inter_shard = [];
      relay1 = [];
      relay2 = [];
      pool = record bc.tx_pool { relay_pool = some [] };
      body = [];
    })
    let current = if added then record b { body = r.body } else bc.current_block
    let (msgs, bc') = relay_msg_send seq (record bc { tx_pool = r.pool; current_block = current })
    some (record {
      chain = bc';
      msgs = msgs;
      info = some (record {
        block_body_length = length b.body;
        inner_shard_txs = r.inter_shard;
        relay1_txs = r.relay1;
        relay2_txs = r.relay2;
        sender_shard_id = bc.shard_id;
      });
    })

module _ (lib : Library) (decode : Bytes → Block) where
  unfoldable pub handle_in_pre_prepare : Bytes → BlockChain → Bool
  unfolding is_valid_block
  handle_in_pre_prepare content bc = is_valid_block lib (decode content) bc

  -- `main` tells whether the node is the view's main node, `seq` is its sequence number.
  unfoldable pub handle_in_commit : Bool → ℕ → Option Request → BlockChain → Option Committed
  unfolding add_block relay_block fits_on
  handle_in_commit main seq none bc = some (record { chain = bc; msgs = []; info = none })
  handle_in_commit main seq (some r) bc = do
    let b = decode r.content
    bc' ← add_block lib b bc
    if main
        then relay_block lib seq b (fits_on b bc) bc'
        else some (record { chain = bc'; msgs = []; info = none })

  -- The loop over the requests of `HandleforSequentialRequest`.
  unfoldable pub add_requests : List Request → BlockChain → Option BlockChain
  unfolding add_block
  add_requests [] bc = some bc
  add_requests (r ∷ rs) bc =
      (elim r.request_type [
        | block_request ↦ add_block lib (decode r.content) bc
        | partition_req ↦ some bc
        | other_request ↦ some bc
      ])
      >>= λ bc'. add_requests rs bc'

  -- The chain, and the sequence number where it is set. The comparison is of `int`s: 64 bits.
  unfoldable pub handle_for_sequential_request :
      SendOldMessage → BlockChain → Option (BlockChain × Option ℕ)
  unfolding add_requests
  handle_for_sequential_request som bc =
      let asked = u64 (som.seq_end_height + 2 ^ 64 - som.seq_start_height + 1) in
      if not (nat_beq asked (length som.old_request))
      then some (bc, none)
      else add_requests som.old_request bc >>= λ bc'.
          some (bc', some (u64 (som.seq_end_height + 1)))

-- A node's chain and the sequence numbers that it has heard of.
pub record Outside : Type 0 where
  pub chain : BlockChain
  pub seq_id_map : Map ℕ ℕ

unfoldable pub handle_relay : ℕ → Relay → Outside → Outside
unfolding send_tx2pool insert
handle_relay now m o = record {
  chain = send_tx2pool now m.txs o.chain;
  seq_id_map = insert m.sender_shard_id m.sender_seq o.seq_id_map;
}

-- `correct` is `TxProofVerify` of a transaction's hash and the proof at the same place.
pub record RelayWithProof (P : Type 0) : Type 0 where
  pub relay : Relay
  pub tx_proofs : List P

module _ {P : Type 0} (correct : Bytes → P → Bool) where
  -- The loop over the transactions; an index out of range panics.
  unfoldable pub all_correct : List Transaction → List P → Option Bool
  all_correct [] proofs = some true
  all_correct (tx ∷ txs) [] = none
  all_correct (tx ∷ txs) (proof ∷ proofs) =
      let rest = all_correct txs proofs in if correct tx.tx_hash proof then rest else some false

  unfoldable pub handle_relay_with_proof : ℕ → RelayWithProof P → Outside → Option Outside
  unfolding all_correct send_tx2pool insert
  handle_relay_with_proof now m o = do
    fine ← all_correct m.relay.txs m.tx_proofs
    some (record {
      chain = if fine then send_tx2pool now m.relay.txs o.chain else o.chain;
      seq_id_map = insert m.relay.sender_shard_id m.relay.sender_seq o.seq_id_map;
    })

unfoldable pub handle_inject_tx : ℕ → List Transaction → Outside → Outside
unfolding send_tx2pool
handle_inject_tx now txs o = record o { chain = send_tx2pool now txs o.chain }
