-- ===== src/ExClique/Node.antt =====
-- consensus_shard/exclique/exclique.go, pcb.go and message_handler.go. A handler's run is one step.
-- The clock's readings are arguments: `now`, the time that a broadcast took, the time that a check of
-- a block took. Sending, listening, decoding and logging are left out; `none` is where the code
-- panics.
pub mod Compact
pub mod Blocks
use blbchain.Base.{
  ℕ, zero, suc, ◌+◌, ◌-◌, ◌*◌, ◌/◌, ◌%◌, ◌^◌, Bool, true, false, not, ◌&&◌, Option, none, some,
  ◌>>=◌, List, [], ◌∷◌, ◌++◌, Bytes, bytes_eq, ◌==◌, nat_beq, ltb, leb, if◌then◌else◌, Map, insert,
  length, take, drop,
}
use blbchain.Core.Transaction.{Transaction}
use blbchain.Core.Block.{Block, BlockHeader}
use blbchain.Chain.State.{Library, BlockChain}
use blbchain.Chain.Blocks as Chain
use blbchain.ExClique.Filter.{
  CountingBloomFilter, new_counting_bloom_filter, encode, add, contains, get_count,
}
use blbchain.ExClique.Order.{OrderManager, new_order_manager, get_in_turn_validator, record_block}
use blbchain.ExClique.Delay.{
  DelayManager, new_delay_manager, record_broadcast_time, record_verify_time, should_propose,
}

pub record ExCliqueNode : Type 0 where
  pub shard_id : ℕ
  pub node_id : ℕ
  pub cur_chain : BlockChain
  pub node_nums : ℕ
  pub block_interval : ℕ
  pub last_block_time : ℕ
  pub delay_manager : DelayManager
  pub tx_pool : List Transaction
  pub cbf : CountingBloomFilter
  pub known_txs : Map Bytes Bool
  pub order_manager : OrderManager
  pub broadcast_time : ℕ
  pub verify_time : ℕ
  pub block_count : ℕ
  pub fork_count : ℕ
  pub stopped : Bool

pub record CompactBlock : Type 0 where
  pub header : BlockHeader
  pub tx_hashes : List Bytes
  pub missing_txs : List Transaction
  pub cbf : Bytes
  pub sender_node_id : ℕ
  pub shard_id : ℕ

-- The numbers from `i` on.
abbrev pub validators_from : ℕ → ℕ → List ℕ
validators_from i zero = []
validators_from i (suc n) = i ∷ validators_from (i + 1) n

-- `interval` is the block interval in milliseconds, `chain` what `NewBlockChain` gives.
unfoldable pub new_exclique_node : ℕ → ℕ → ℕ → ℕ → BlockChain → ℕ → ExCliqueNode
unfolding new_counting_bloom_filter new_order_manager new_delay_manager
new_exclique_node shard_id node_id node_nums interval chain now = record {
  shard_id = shard_id;
  node_id = node_id;
  cur_chain = chain;
  node_nums = node_nums;
  block_interval = interval * 1000000;
  last_block_time = now;
  delay_manager = new_delay_manager (50 * 1000000) (interval * 1000000);
  tx_pool = [];
  cbf = new_counting_bloom_filter 100000 4;
  known_txs = [];
  order_manager = new_order_manager (validators_from 0 node_nums);
  broadcast_time = 0;
  verify_time = 0;
  block_count = 0;
  fork_count = 0;
  stopped = false;
}

abbrev pub milliseconds : ℕ → ℕ
milliseconds d = d / 1000000

unfoldable pub verify_block : Block → ExCliqueNode → Bool
verify_block b ec =
    if not (nat_beq b.header.number (ec.cur_chain.current_block.header.number + 1))
    then false
    else if not (b.header.parent_block_hash == ec.cur_chain.current_block.hash)
    then false
    else true

-- `Stop` closes a channel: a second call panics.
unfoldable pub stop : ExCliqueNode → Option ExCliqueNode
stop ec = if ec.stopped then none else some (record ec { stopped = true })

module _ (lib : Library) where
  -- The header has no state root, transaction root or bloom filter. A miner is an `int32`.
  -- The miner is an `int32`, here its 32 bits.
  unfoldable pub create_block : ℕ → List Transaction → ExCliqueNode → Block
  create_block now txs ec =
      let header : BlockHeader = record {
        parent_block_hash = ec.cur_chain.current_block.hash;
        state_root = [];
        tx_root = [];
        bloom = [];
        number = ec.cur_chain.current_block.header.number + 1;
        time = now;
        miner = ec.node_id % 2 ^ 32;
      } in
      record { header = header; body = txs; hash = lib.hash_header header }

-- `sum64` is the hash of the filter; see `Filter`.
module _ (sum64 : Bytes → ℕ) where
  -- The loops that note the transactions of a block, or of an injection, as known.
  unfoldable pub note_known : List Transaction → ExCliqueNode → ExCliqueNode
  unfolding insert add
  note_known [] ec = ec
  note_known (tx ∷ txs) ec = note_known txs (record ec {
    cbf = add sum64 tx.tx_hash ec.cbf;
    known_txs = insert tx.tx_hash true ec.known_txs;
  })

  -- Does the filter make it likely that the peers have the transaction?
  unfoldable pub likely_known : CountingBloomFilter → Transaction → Bool
  unfolding contains get_count
  likely_known cbf tx = contains sum64 tx.tx_hash cbf && ltb 1 (get_count sum64 tx.tx_hash cbf)

  -- The loop that sorts a block's transactions into hashes and whole transactions.
  unfoldable pub classify :
      CountingBloomFilter
      → List Transaction
      → List Bytes
      → List Transaction
      → List Bytes × List Transaction
  unfolding likely_known
  classify cbf [] hashes missing = (hashes, missing)
  classify cbf (tx ∷ txs) hashes missing =
      let known = classify cbf txs (hashes ++ tx.tx_hash ∷ []) missing in
      let unknown = classify cbf txs hashes (missing ++ tx ∷ []) in
      if likely_known cbf tx then known else unknown

  unfoldable pub compact_block_for : Block → ExCliqueNode → CompactBlock
  unfolding classify encode
  compact_block_for b ec =
      let (hashes, missing) = classify ec.cbf b.body [] [] in
      record {
        header = b.header;
        tx_hashes = hashes;
        missing_txs = missing;
        cbf = encode ec.cbf;
        sender_node_id = ec.node_id;
        shard_id = ec.shard_id;
      }

  unfoldable pub handle_inject_txs : List Transaction → ExCliqueNode → ExCliqueNode
  unfolding note_known
  handle_inject_txs txs ec = note_known txs (record ec { tx_pool = ec.tx_pool ++ txs })

module _ (sum64 : Bytes → ℕ) (lib : Library) where
  unfoldable pub add_block : ℕ → Block → ExCliqueNode → Option ExCliqueNode
  unfolding verify_block Chain.add_block note_known record_verify_time
  add_block took b ec =
      if not (verify_block b ec) then some (record ec { fork_count = ec.fork_count + 1 }) else do
        chain ← Chain.add_block lib b ec.cur_chain
        some (
            note_known sum64 b.body (record ec {
              cur_chain = chain;
              verify_time = milliseconds took;
              delay_manager = record_verify_time took ec.delay_manager;
            }))

  unfoldable pub handle_compact_block : ℕ → CompactBlock → ExCliqueNode → Option ExCliqueNode
  unfolding add_block
  handle_compact_block took cb ec =
      let b : Block = record {
        header = cb.header;
        body = cb.missing_txs;
        hash = lib.hash_header cb.header;
      } in
      add_block took b ec

  -- The block that is broadcast, if any, and the node after; `max_size` is `MaxBlockSize_global`, and
  -- `finished` the clock at the end. For each peer a goroutine sends `compact_block_for` the block, of
  -- the node as it is when the goroutine runs.
  unfoldable pub propose_block :
      ℕ → ℕ → ℕ → ℕ → ℕ → Bool → ExCliqueNode → Option (List Block × ExCliqueNode)
  unfolding create_block add_block record_broadcast_time record_block
  propose_block max_size now broadcasting took finished in_turn ec =
      let txs = if ltb max_size (length ec.tx_pool) then take max_size ec.tx_pool else ec.tx_pool in
      let b = create_block lib now txs ec in
      let sent = record ec {
        tx_pool = drop (length txs) ec.tx_pool;
        broadcast_time = milliseconds broadcasting;
        delay_manager = record_broadcast_time broadcasting ec.delay_manager;
      } in
      if nat_beq (length ec.tx_pool) 0 then some ([], ec) else do
        added ← add_block took b sent
        some (
          b ∷ [],
          record added {
            last_block_time = finished;
            order_manager = record_block ec.node_id in_turn added.order_manager;
            block_count = added.block_count + 1;
          },
        )

  -- One tick of `consensusLoop`. `hash` is that of the order, `chance` the draw of the delays.
  unfoldable pub try_propose_block :
      (ℕ → ℕ → ℕ)
      → (ℕ → ℕ → Bool)
      → ℕ
      → ℕ
      → ℕ
      → ℕ
      → ℕ
      → ExCliqueNode
      → Option (List Block × ExCliqueNode)
  unfolding get_in_turn_validator should_propose propose_block
  try_propose_block hash chance max_size now broadcasting took finished ec = do
    (in_turn, om) ←
        get_in_turn_validator hash (ec.cur_chain.current_block.header.number + 1) ec.order_manager
    let ec' = record ec { order_manager = om }
    if nat_beq ec.node_id in_turn
        then if leb ec.block_interval (now - ec.last_block_time)
          then propose_block max_size now broadcasting took finished true ec'
          else some ([], ec')
        else if should_propose chance (now - ec.last_block_time) ec.delay_manager
        then propose_block max_size now broadcasting took finished false ec'
        else some ([], ec')

-- `handleMessage`, after the split into type and content; `none` is content that cannot be decoded.
pub data Message : Type 0 where
  too_short : Message
  exclique_block : Option CompactBlock → Message
  inject : Option (List Transaction) → Message
  stops : Message
  unknown : Message

module _ (sum64 : Bytes → ℕ) (lib : Library) where
  unfoldable pub handle_message : ℕ → Message → ExCliqueNode → Option ExCliqueNode
  unfolding handle_compact_block handle_inject_txs stop
  handle_message took too_short ec = some ec
  handle_message took (exclique_block none) ec = some ec
  handle_message took (exclique_block (some cb)) ec = handle_compact_block sum64 lib took cb ec
  handle_message took (inject none) ec = some ec
  handle_message took (inject (some txs)) ec = some (handle_inject_txs sum64 txs ec)
  handle_message took stops ec = stop ec
  handle_message took unknown ec = some ec
