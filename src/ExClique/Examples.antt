-- ===== src/ExClique/Examples.antt =====
-- Inputs at which the theorems on the ExClique node apply: three validators, and a filter of eight
-- counters.
use blbchain.Base.{
  ℕ, ◌+◌, ◌*◌, ◌-◌, ◌≤◌, ◌<◌, ◌≡◌, refl, ◌⊎◌, Bool, true, not, some, List, [], ◌∷◌, ◌++◌, Perm,
  Bytes, bytes_eq, ◌==◌, length, min, filterb, ltb, arith,
}
use blbchain.Core.Transaction.{Transaction, new_transaction}
use blbchain.Core.Block.{Block}
use blbchain.Core.TxPool.{new_tx_pool}
use blbchain.Chain.State.{Library, BlockChain}
use blbchain.Chain.Blocks.{store, open_trie, has_trie}
use blbchain.ExClique.Filter.{
  CountingBloomFilter, new_counting_bloom_filter, add, remove, contains, get_count, hash,
}
use blbchain.ExClique.Filter.Counts.{count}
use blbchain.ExClique.Filter.History.{start, adds, removes, History-contains}
use blbchain.ExClique.Order.{OrderManager, new_order_manager, record_block, update_order_for_epoch}
use blbchain.ExClique.Order.Fairness.{IsFair, update_order_for_epoch-IsFair}
use blbchain.ExClique.Order.Rotation.{turns, turns-Perm, new_order_manager-IsOrdered}
use blbchain.ExClique.Delay.{
  DelayManager, new_delay_manager, record_broadcast_time, record_verify_time, get_random_delay,
  should_propose,
}
use blbchain.ExClique.Delay.Window.{should_propose_window}
use blbchain.ExClique.Delay.Bounds as Bounds
use blbchain.ExClique.Delay.Bounds.{beta_of, Measured-beta}
use blbchain.ExClique.Node.{
  ExCliqueNode, new_exclique_node, propose_block, compact_block_for, handle_compact_block,
  likely_known, create_block, verify_block,
}
use blbchain.ExClique.Node.Blocks.{propose_block-store}
use blbchain.ExClique.Node.Compact.{handle_compact_block-filterb}

abbrev first_byte : Bytes → ℕ
first_byte [] = 0
first_byte (b ∷ bs) = b

abbrev fresh : CountingBloomFilter
fresh = new_counting_bloom_filter 8 2

abbrev item : Bytes
item = 3 ∷ []

History-contains_example :
    let cbf = remove first_byte (4 ∷ []) (add first_byte item (add first_byte (4 ∷ []) fresh)) in
    (contains first_byte item cbf ≡ true)
    × (count first_byte item (item ∷ []) ≤ get_count first_byte item cbf)
unfolding hash new_counting_bloom_filter add
History-contains_example =
    History-contains first_byte {size = 8} {hash_num = 2} {bag = item ∷ []}
      {cbf = remove first_byte (4 ∷ []) (add first_byte item (add first_byte (4 ∷ []) fresh))} item
      (omega arith) (omega arith)
      (removes (4 ∷ []) (item ∷ []) []
        (adds item (adds (4 ∷ []) start (λ q. ground arith)) (λ q. ground arith)))
      (omega arith)

abbrev mixed : ℕ → ℕ → ℕ
mixed v epoch = v * 5 + epoch

abbrev manager : OrderManager
manager = new_order_manager (0 ∷ 1 ∷ 2 ∷ [])

update_order_for_epoch-IsFair_example :
    let om = record_block 0 true manager in
    Perm (update_order_for_epoch mixed 1 om).base_order om.validators
    × IsFair om (update_order_for_epoch mixed 1 om).base_order
update_order_for_epoch-IsFair_example =
    update_order_for_epoch-IsFair mixed 1 (record_block 0 true manager)

-- The validator that has made a block in turn comes last in the next epoch.
update_order_last :
    (update_order_for_epoch mixed 1 (record_block 0 true manager)).base_order ≡ 1 ∷ 2 ∷ 0 ∷ []
unfolding update_order_for_epoch record_block new_order_manager
update_order_last = refl

abbrev in_turn_records : ℕ → List (ℕ × Bool)
in_turn_records height = (height, true) ∷ []

turns-Perm_example :
    (vs : List ℕ) × (om' : OrderManager) × (turns mixed in_turn_records
        (length manager.validators)
        (1 * length manager.validators)
        manager
      ≡ some (vs, om'))
    × Perm vs manager.validators
unfolding new_order_manager
turns-Perm_example =
    turns-Perm mixed in_turn_records 1 manager
      (new_order_manager-IsOrdered (0 ∷ 1 ∷ 2 ∷ []) (omega arith))

abbrev delays : DelayManager
delays = new_delay_manager 50 100

should_propose_window_example :
    (should_propose ltb 60 delays ≡ true → (delays.beta ≤ 60) × (60 < delays.wait_window))
    × (delays.beta ≤ get_random_delay (λ n. n - 1) delays)
    × (delays.beta < delays.wait_window → get_random_delay (λ n. n - 1) delays < delays.wait_window)
    × (delays.wait_window ≤ delays.beta → get_random_delay (λ n. n - 1) delays ≡ delays.beta)
should_propose_window_example =
    should_propose_window ltb (λ n. n - 1) 60 delays (λ n h. omega arith)

Measured-beta_example :
    let dm = record_verify_time 7 (record_broadcast_time 20 delays) in
    (length dm.broadcast_hist ≤ 10)
    × (length dm.verify_hist ≤ 10)
    × ((dm.beta ≡ 50) ⊎ ((beta_of 10 5 ≤ dm.beta) × (dm.beta ≤ beta_of 30 8)))
Measured-beta_example =
    Measured-beta 10 30 5 8 50 100 (omega arith, omega arith, omega arith)
      (Bounds.verify 7 (Bounds.broadcast 20 Bounds.start (omega arith, omega arith))
        (omega arith, omega arith))

abbrev lib : Library
lib = record {
  root_of = λ st. 1 ∷ [];
  hash_header = λ bh. bh.number ∷ [];
  tree_root = λ keys. [];
  is_empty_root = λ root. root == [];
  parse_uint = λ s. some (0);
}

abbrev genesis : Block
genesis = record {
  header = record {
    parent_block_hash = [];
    state_root = [];
    tx_root = [];
    bloom = [];
    number = 0;
    time = 0;
    miner = 0;
  };
  body = [];
  hash = 0 ∷ [];
}

abbrev chain : BlockChain
chain = record {
  shard_id = 0;
  shard_num = 1;
  block_size = 2;
  init_balance = 100;
  tx_pool = new_tx_pool;
  current_block = genesis;
  storage = genesis ∷ [];
  triedb = [];
  partition_map = [];
}

abbrev tx : ℕ → Transaction
tx k = new_transaction (λ t. t.value ∷ []) "a" "b" k 0 7

abbrev node : ℕ → ExCliqueNode
node i = record (new_exclique_node 0 i 3 5 chain 0) {
  cbf = fresh;
  tx_pool = tx 3 ∷ tx 4 ∷ tx 5 ∷ [];
}

propose_block-store_example :
    (b : Block) × (ec' : ExCliqueNode) × (propose_block first_byte lib 2 9 1 1 10 true (node 1)
      ≡ some (b ∷ [], ec'))
    × (b.body ++ ec'.tx_pool ≡ (node 1).tx_pool)
    × (length b.body ≡ min 2 (length (node 1).tx_pool))
    × (ec'.cur_chain ≡ store b (node 1).cur_chain)
    × (open_trie lib ec'.cur_chain ≡ some [])
    × (ec'.block_count ≡ (node 1).block_count + 1)
propose_block-store_example =
    propose_block-store first_byte lib 2 9 1 1 10 true (node 1) refl (omega arith)

-- A sender whose filter has counted one of the two transactions twice.
abbrev sender : ExCliqueNode
sender = record (node 1) { cbf = add first_byte item (add first_byte item fresh) }

abbrev made : Block
made = create_block lib 9 (tx 3 ∷ tx 4 ∷ []) (node 1)

handle_compact_block-filterb_example :
    (receiver' : ExCliqueNode) × (handle_compact_block first_byte lib 1
        (compact_block_for first_byte made sender)
        (node 2)
      ≡ some receiver')
    × (receiver'.cur_chain
        ≡ store
            (record made {
              body = filterb (λ t. not (likely_known first_byte sender.cbf t)) made.body;
            })
            (node 2).cur_chain)
unfolding create_block verify_block has_trie new_exclique_node
handle_compact_block-filterb_example =
    handle_compact_block-filterb first_byte lib 1 made sender (node 2) refl refl refl

-- Of the two transactions only the second one arrives.
compact_block_loses : (compact_block_for first_byte made sender).missing_txs ≡ tx 4 ∷ []
unfolding compact_block_for create_block new_counting_bloom_filter add new_transaction
    new_exclique_node
compact_block_loses = refl
