-- ===== src/Chain/Examples.antt =====
-- Inputs at which the theorems on the chain apply: two accounts of shard 0, a chain of one block, and
-- a library that takes the balances for a root.
use blbchain.Base.{
  ℕ, ◌+◌, ◌≡◌, refl, true, ◌&&◌, [], ◌∷◌, none, some, String, string_eq, ◌==◌, Bytes, bytes_eq, map,
}
use blbchain.Core.Transaction.{Transaction, new_transaction}
use blbchain.Core.TxPool.{TxPool}
use blbchain.Core.Block.{Block, BlockHeader}
use blbchain.Chain.State.{Library, BlockChain, get_tx_tree_root, get_bloom_filter}
use blbchain.Chain.Exec.{exec_tx, exec_txs, pays_here, receives_here}
use blbchain.Chain.Exec.Balances.{balance_of, value_if, covered, exec_tx-balance_of, total}
use blbchain.Chain.Exec.Conservation.{total-exec_txs}
use blbchain.Chain.Blocks.{
  store, add_block, generate_block, is_valid_block, open_trie, has_trie, get_update_status_trie,
}
use blbchain.Chain.Blocks.Linked.{IsChain, add_block-IsChain}
use blbchain.Chain.Blocks.Generated.{generate_block-Fits, add_block-open_trie-none}

abbrev alice : String
alice = "a"

abbrev bob : String
bob = "b"

abbrev lib : Library
lib = record {
  root_of = λ st. map (λ e. e.1.balance) st;
  hash_header = λ bh. bh.number ∷ [];
  tree_root = λ keys. [];
  is_empty_root = λ root. root == [];
  parse_uint = λ s. some (0);
}

abbrev pays : String → String → ℕ → Transaction
pays a b v = new_transaction (λ tx. tx.value ∷ []) a b v 0 7

abbrev header : ℕ → Bytes → Bytes → BlockHeader
header n parent root = record {
  parent_block_hash = parent;
  state_root = root;
  tx_root = [];
  bloom = [];
  number = n;
  time = 0;
  miner = 0;
}

abbrev queued : TxPool
queued = record { tx_queue = pays alice bob 30 ∷ []; relay_pool = some [] }

abbrev emptied : TxPool
emptied = record { tx_queue = []; relay_pool = some [] }

abbrev genesis : Block
genesis = record { header = header 0 [] []; body = []; hash = 0 ∷ [] }

abbrev chain : BlockChain
chain = record {
  shard_id = 0;
  shard_num = 1;
  block_size = 2;
  init_balance = 100;
  tx_pool = queued;
  current_block = genesis;
  storage = genesis ∷ [];
  triedb = [];
  partition_map = [];
}

chain-IsChain : IsChain chain
chain-IsChain = record { below = []; stored = refl; linked = tt }

abbrev first : Block
first = record {
  header = header 1 (0 ∷ []) (70 ∷ 130 ∷ []);
  body = pays alice bob 30 ∷ [];
  hash = 1 ∷ [];
}

-- A block whose header claims another state root than executing it gives.
abbrev wrong_root : Block
wrong_root = record first { header = header 1 (0 ∷ []) (9 ∷ []) }

abbrev after : BlockChain
after = record chain {
  triedb =
      (
        70 ∷ 130 ∷ [],
        (alice, record { nonce = 0; balance = 70 })
            ∷ (bob, record { nonce = 0; balance = 130 })
            ∷ [],
      )
      ∷ [];
}

exec_tx-balance_of_example :
    balance_of 100 alice (exec_tx (λ _. 0) 0 100 0 (pays alice bob 30) []).0
      + value_if
          (covered (λ _. 0) 0 100 (pays alice bob 30) []
            && (pays_here (λ _. 0) 0 (pays alice bob 30) && alice == alice))
          30
    ≡ balance_of 100 alice []
      + value_if
          (covered (λ _. 0) 0 100 (pays alice bob 30) []
            && (receives_here (λ _. 0) 0 (pays alice bob 30) && bob == alice))
          30
unfolding new_transaction
exec_tx-balance_of_example = exec_tx-balance_of (λ _. 0) 0 100 0 (pays alice bob 30) [] alice

total-exec_txs_example :
    total 100
      (alice ∷ bob ∷ [])
      (exec_txs (λ _. 0) 0 100 0 (pays alice bob 30 ∷ pays bob alice 200 ∷ []) []).0
    ≡ total 100 (alice ∷ bob ∷ []) []
unfolding new_transaction
total-exec_txs_example =
    total-exec_txs (λ _. 0) 0 100 0 (pays alice bob 30 ∷ pays bob alice 200 ∷ []) []
      (alice ∷ bob ∷ []) (refl, (refl, tt))
      ((refl, refl, refl, refl, refl), ((refl, refl, refl, refl, refl), tt))

add_block-IsChain_example : IsChain (store first after)
unfolding add_block new_transaction
add_block-IsChain_example = add_block-IsChain lib first chain (store first after) chain-IsChain refl

generate_block-Fits_example :
    let made = record first {
      header = record first.header { bloom = 30 ∷ []; time = 5; miner = 2 };
    } in
    let left = record after { tx_pool = emptied } in
    (is_valid_block lib made left ≡ true)
    × (add_block lib made left ≡ some (store made left))
    × (left.storage ≡ chain.storage)
unfolding generate_block new_transaction has_trie get_tx_tree_root get_bloom_filter
generate_block-Fits_example =
    generate_block-Fits lib none 5 2 chain (record after { tx_pool = emptied })
      (record first { header = record first.header { bloom = 30 ∷ []; time = 5; miner = 2 } }) refl
      refl

add_block-open_trie-none_example :
    (add_block lib wrong_root chain ≡ some (store wrong_root after))
    × (open_trie lib (store wrong_root after) ≡ none)
unfolding add_block new_transaction has_trie get_update_status_trie
add_block-open_trie-none_example =
    add_block-open_trie-none lib wrong_root chain (70 ∷ 130 ∷ []) after refl refl refl refl
      (λ e. cc e)
