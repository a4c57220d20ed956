-- ===== src/Migration/Examples.antt =====
-- A partition that moves one of two accounts from shard 0 to shard 1, with three transactions queued.
use blbchain.Base.{
  true, insert, nat_eq, Bool, ◌<◌, ◌≢◌, arith, String, string_eq, ℕ, ◌≡◌, refl, not, [], ◌∷◌, List,
  some, bytes_eq, ◌==◌, Map, lookup, map, filterb,
}
use blbchain.Core.Transaction.{Transaction, new_transaction}
use blbchain.Core.Block.{Block, AccountState}
use blbchain.Chain.State.{
  has_home, get_partition_map, addr2shard, home_of, Library, BlockChain, Accounts, home_of,
  send_tx2pool,
}
use blbchain.Chain.Blocks.{open_trie, find_trie, fetch_account}
use blbchain.Migration.{
  AccountTransferMsg, AccountStateAndTx, ClpaNode, new_clpa_data, fetch_txs, new_shard,
  send_partition_ready, send_accounts_and_txs,
}
use blbchain.Migration.Activation.{propose_partition, handle_partition_msg, handle_partition_ready}
use blbchain.Migration.Sending.{msgs_of, sent_to, leaves, send_accounts_and_txs-msgs_of}
use blbchain.Migration.Acceptance.{all_txs, propose_partition-IsSent}
use blbchain.Migration.Rounds.{
  Run, idle, waits_ready, Reach, here, next, partition_msg, begins, sends, proposes,
  partition_ready, step, begin_step,
}
use blbchain.Migration.Rounds.Complete.{Reach-complete}

abbrev lib : Library
lib = record {
  root_of = λ st. map (λ e. e.1.balance) st;
  hash_header = λ bh. bh.number ∷ [];
  tree_root = λ keys. [];
  is_empty_root = λ root. root == [];
  parse_uint = λ s. some (0);
}

abbrev pays : String → String → ℕ → Transaction
pays a b v = new_transaction (λ tx. tx.value ∷ []) a b v 0 7

abbrev queue : List Transaction
queue = pays "a" "b" 1 ∷ pays "b" "a" 2 ∷ pays "b" "c" 3 ∷ []

abbrev block : List ℕ → Block
block root = record {
  header = record {
    parent_block_hash = [];
    state_root = root;
    tx_root = [];
    bloom = [];
    number = 0;
    time = 0;
    miner = 0;
  };
  body = [];
  hash = 0 ∷ [];
}

abbrev account : ℕ → AccountState
account v = record { nonce = 0; balance = v }

abbrev trie : Accounts
trie = ("a", account 50) ∷ ("b", account 60) ∷ []

abbrev new_partition : Map String ℕ
new_partition = ("b", 1) ∷ []

abbrev chain_of : ℕ → List Transaction → BlockChain
chain_of shard txs = record {
  shard_id = shard;
  shard_num = 2;
  block_size = 10;
  init_balance = 100;
  tx_pool = record { tx_queue = txs; relay_pool = some [] };
  current_block = block (50 ∷ 60 ∷ []);
  storage = [];
  triedb = (50 ∷ 60 ∷ [], trie) ∷ [];
  partition_map = [];
}

abbrev node_of : ℕ → List Transaction → Map ℕ AccountStateAndTx → ClpaNode
node_of shard txs got = record {
  chain = chain_of shard txs;
  sequence_id = 1;
  seq_id_map = [];
  cdm = record new_clpa_data { modified_map = new_partition ∷ []; account_state_tx = got };
}

abbrev sender : ClpaNode
sender = node_of 0 queue []

abbrev addrs : List String
addrs = "b" ∷ []

abbrev message : AccountStateAndTx
message = sent_to 0 new_partition (fetch_account sender.chain trie) addrs 1 queue

abbrev receiver : ClpaNode
receiver = node_of 1 [] ((0, message) ∷ [])

two_sent : fetch_txs ("b" ∷ []) queue ≡ (pays "a" "b" 1 ∷ [], pays "b" "a" 2 ∷ pays "b" "c" 3 ∷ [])
unfolding fetch_txs new_transaction
two_sent = refl

opened : open_trie lib sender.chain ≡ some trie
unfolding open_trie find_trie lookup
opened = refl

send_accounts_and_txs-msgs_of_example :
    send_accounts_and_txs lib sender
    ≡ some (
      msgs_of 0 new_partition (fetch_account sender.chain trie) addrs 0 2 queue,
      record sender {
        chain = chain_of 0 (
            filterb
              (λ tx. not (leaves 0 new_partition (fetch_account sender.chain trie) addrs 0 2 tx))
              queue);
      },
    )
unfolding has_home get_partition_map addr2shard home_of new_shard
send_accounts_and_txs-msgs_of_example =
    send_accounts_and_txs-msgs_of lib sender trie new_partition (refl, tt) refl opened

propose_partition-IsSent_example :
    (atm : AccountTransferMsg) × (p : ClpaNode) × (propose_partition 9 receiver ≡ some (atm, p))
    × (atm.modified_map ≡ new_partition)
    × (atm.atid ≡ 1)
    × (p.chain ≡ send_tx2pool 9 (all_txs ((0, message) ∷ [])) receiver.chain)
unfolding new_clpa_data
propose_partition-IsSent_example =
    propose_partition-IsSent 1 new_partition 9 receiver refl refl refl
      ((fetch_account sender.chain trie, addrs, queue, refl), tt)

abbrev transfer : AccountTransferMsg
transfer = record {
  modified_map = new_partition;
  addrs = "b" ∷ [];
  account_state = account 60 ∷ [];
  atid = 1;
}

abbrev start : Run
start = record {
  node = record { chain = chain_of 0 queue; sequence_id = 1; seq_id_map = []; cdm = new_clpa_data };
  phase = idle;
}

-- After the partition came, the proposer began, and the other shard said that it is ready.
abbrev waiting : Run
waiting = record {
  node = record (start.node) {
    cdm = record new_clpa_data {
      modified_map = new_partition ∷ [];
      partition_on = true;
      partition_ready = (0, true) ∷ (1, true) ∷ [];
      ready_seq = (1, 4) ∷ [];
    };
  };
  phase = waits_ready;
}

two_shards : 0 < 2
two_shards = omega arith

other_shard : 1 < 2
other_shard = omega arith

start-Reach : Reach lib 0 2 start waiting
unfolding step begin_step send_partition_ready handle_partition_msg handle_partition_ready insert
    new_clpa_data
start-Reach =
    next (partition_ready (record { from_shard = 1; now_seq_id = 4 }))
      (next begins (next (partition_msg new_partition) here tt refl) tt refl) other_shard refl

Reach-complete_example :
    ((q : Run)
      → step lib sends waiting ≡ some q
      → (i : ℕ) → i < 2
      → (b : Bool) × (lookup i waiting.node.cdm.partition_ready ≡ some b))
    × ((now : ℕ) (q : Run)
        → step lib (proposes now) waiting ≡ some q
        → (i : ℕ) → i < 2
        → i ≢ 0
        → (at : AccountStateAndTx) × (lookup i waiting.node.cdm.account_state_tx ≡ some at))
Reach-complete_example = Reach-complete lib 0 2 two_shards start waiting refl refl refl start-Reach
