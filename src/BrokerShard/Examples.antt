-- ===== src/BrokerShard/Examples.antt =====
-- A block with one transaction of each kind.
use blbchain.Base.{
  ℕ, ◌≡◌, refl, String, string_eq, true, none, some, List, [], ◌∷◌, Bytes, bytes_eq, lookup, map,
  arith,
}
use blbchain.Core.Transaction.{Transaction, new_transaction}
use blbchain.Core.Block.{Block}
use blbchain.Chain.State.{Library, BlockChain}
use blbchain.Chain.Blocks.{add_block, has_trie}
use blbchain.Pbft.Node.{Request, block_request}
use blbchain.Committee.Broker.{BrokerRawMeg, BrokerLibrary, tx1_of, tx2_of}
use blbchain.BrokerShard.{broker_handle_in_commit, broker_sequential_request}
use blbchain.BrokerShard.Halves.{
  Origin, from_data, first_half, second_half, tx_of, broker_handle_in_commit-by_origin,
}
use blbchain.BrokerShard.Answered.{broker_sequential_request-none}

abbrev hashes : BrokerLibrary
hashes = record {
  hash = λ tx. tx.nonce ∷ tx.time ∷ [];
  digest = λ meg. meg.tx.nonce ∷ [];
  clock1 = λ tx. 100;
  clock2 = λ tx. 200;
}

abbrev lib : Library
lib = record {
  root_of = λ st. [];
  hash_header = λ bh. bh.number ∷ [];
  tree_root = λ keys. [];
  is_empty_root = λ root. true;
  parse_uint = λ s. some (0);
}

abbrev payment : ℕ → Transaction
payment nonce = new_transaction (λ tx. tx.nonce ∷ tx.time ∷ []) "a" "b" 5 nonce 7

abbrev raw : ℕ → BrokerRawMeg
raw nonce = record { tx = payment nonce; broker = "d" }

abbrev origins : List Origin
origins =
    from_data (payment 1)
    ∷ first_half (record { raw_meg = raw 2; broker = "d" })
    ∷ second_half (record { raw_meg = raw 3; broker = "d" })
    ∷ []

abbrev block : ℕ → List Transaction → Block
block n body = record {
  header = record {
    parent_block_hash = [];
    state_root = [];
    tx_root = [];
    bloom = [];
    number = n;
    time = 0;
    miner = 0;
  };
  body = body;
  hash = [];
}

abbrev chain : BlockChain
chain = record {
  shard_id = 0;
  shard_num = 2;
  block_size = 5;
  init_balance = 100;
  tx_pool = record { tx_queue = []; relay_pool = none };
  current_block = block 0 [];
  storage = [];
  triedb = [];
  partition_map = [];
}

abbrev read_block : Bytes → Block
read_block content = block 1 (map (tx_of hashes) origins)

abbrev request : Request
request = record { request_type = block_request; content = []; req_time = 0 }

abbrev after : BlockChain
after = record chain { current_block = read_block []; storage = read_block [] ∷ [] }

broker_handle_in_commit-by_origin_example :
    broker_handle_in_commit lib read_block true 4 (9 ∷ []) ((9 ∷ [], request) ∷ []) chain
    ≡ some (record {
      chain = after;
      msgs = (1, record { sender_shard_id = 0; sender_seq = 4 }) ∷ [];
      info = some (record {
        block_body_length = 3;
        inner_shard_txs = payment 1 ∷ [];
        broker1_txs = tx1_of hashes (record { raw_meg = raw 2; broker = "d" }) ∷ [];
        broker2_txs = tx2_of hashes (record { raw_meg = raw 3; broker = "d" }) ∷ [];
        sender_shard_id = 0;
      });
    })
unfolding add_block has_trie lookup new_transaction
broker_handle_in_commit-by_origin_example =
    broker_handle_in_commit-by_origin hashes lib read_block 4 (9 ∷ []) ((9 ∷ [], request) ∷ [])
      chain after request origins refl refl refl (refl, ((filled, other), (filled, tt)))
  where
    filled : {x : ℕ} {xs : Bytes} → ¬ ((x ∷ xs) ≡ [])
    filled h = cc

    differ : (string_eq.equals "d" "b" ≡ true) → ⊥
    differ h = cc

    other : ¬ (◌≡◌ {A = String} "d" "b")
    other h = differ ((string_eq.equals_iff "d" "b").1 h)

broker_sequential_request-none_example :
    broker_sequential_request lib read_block
      (record {
        seq_start_height = 1;
        seq_end_height = 2;
        old_request = request ∷ request ∷ [];
        sender_node = record { shard_id = 0; node_id = 1; ip_addr = "" };
      })
      chain
    ≡ some (chain, none)
broker_sequential_request-none_example =
    broker_sequential_request-none lib read_block
      (record {
        seq_start_height = 1;
        seq_end_height = 2;
        old_request = request ∷ request ∷ [];
        sender_node = record { shard_id = 0; node_id = 1; ip_addr = "" };
      })
      chain (omega arith) (omega arith) (omega arith)
