-- ===== src/Chain/Blocks.antt =====
-- The methods of `BlockChain` that make and add blocks; `none` is where the code panics. A header's state root
-- stands for the 32 bytes that `common.BytesToHash` makes of it. Where a transaction is executed, or an account is put
-- into the trie, the program also stops at an address for which `Get_PartitionMap` finds no shard: the addresses here
-- are those for which it finds one.
pub mod Linked
pub mod Generated
pub mod Added
use blbchain.Base.{
  ◌>>=◌, ℕ, zero, suc, ◌+◌, ◌≡◌, Bool, true, false, not, List, [], ◌∷◌, Option, none, some, String,
  string_eq, Bytes, bytes_eq, ◌==◌, Map, lookup, insert, nat_beq, is_some, map, if◌then◌else◌,
}
use blbchain.Core.Transaction.{Transaction}
use blbchain.Core.TxPool.{TxPool, pack_txs, pack_txs_with_bytes}
use blbchain.Core.Block.{Block, BlockHeader, AccountState}
use blbchain.Chain.State.{
  Accounts, Library, BlockChain, home_of, get_tx_tree_root, get_bloom_filter,
}
use blbchain.Chain.Exec.{exec_txs}

-- `trie.New`: the empty trie, or one of the database; `none` is its error.
unfoldable pub find_trie : Library → Bytes → BlockChain → Option Accounts
unfolding lookup
find_trie lib root bc = if lib.is_empty_root root then some [] else lookup root bc.triedb

-- The current block's trie.
unfoldable pub open_trie : Library → BlockChain → Option Accounts
unfolding find_trie
open_trie lib bc = find_trie lib bc.current_block.header.state_root bc

-- `size` is `BlocksizeInBytes` and the size of a transaction, where bytes are counted.
unfoldable pub pack : Option (ℕ × ℕ) → BlockChain → List Transaction × TxPool
unfolding pack_txs pack_txs_with_bytes
pack none bc = pack_txs bc.block_size bc.tx_pool
pack (some (max_bytes, tx_size)) bc = pack_txs_with_bytes tx_size max_bytes bc.tx_pool

-- Can a trie with this root be opened?
unfoldable pub has_trie : Library → Bytes → BlockChain → Bool
unfolding find_trie
has_trie lib root bc = is_some (find_trie lib root bc)

abbrev pub store : Block → BlockChain → BlockChain
store b bc = record bc { current_block = b; storage = b ∷ bc.storage }

unfoldable pub fetch_account : BlockChain → Accounts → String → AccountState
unfolding lookup
fetch_account bc st addr = elim (lookup addr st) [
  | none ↦ record { nonce = 0; balance = bc.init_balance }
  | some s ↦ s
]

unfoldable pub fetch_accounts : Library → List String → BlockChain → Option (List AccountState)
unfolding open_trie fetch_account
fetch_accounts lib addrs bc = do
  st ← open_trie lib bc
  some (map (λ addr. fetch_account bc st addr) addrs)

module _ (lib : Library) where
  -- The new root and the chain with the committed trie.
  unfoldable pub get_update_status_trie :
      List Transaction → BlockChain → Option (Bytes × BlockChain)
  unfolding open_trie exec_txs insert home_of
  get_update_status_trie [] bc = some (bc.current_block.header.state_root, bc)
  get_update_status_trie (tx ∷ txs) bc = do
    st ← open_trie lib bc
    let r = exec_txs (home_of lib bc) bc.shard_id bc.init_balance 0 (tx ∷ txs) st
    if nat_beq r.1 0
        then some (bc.current_block.header.state_root, bc)
        else some (lib.root_of r.0, record bc { triedb = insert (lib.root_of r.0) r.0 bc.triedb })

  unfoldable pub generate_block : Option (ℕ × ℕ) → ℕ → ℕ → BlockChain → Option (Block × BlockChain)
  unfolding pack get_update_status_trie
  generate_block size now miner bc = do
    let packed = pack size bc
    (rt, bc') ← get_update_status_trie packed.0 (record bc { tx_pool = packed.1 })
    let bh : BlockHeader = record {
      parent_block_hash = bc.current_block.hash;
      state_root = rt;
      tx_root = get_tx_tree_root lib packed.0;
      bloom = get_bloom_filter packed.0;
      number = bc.current_block.header.number + 1;
      time = now;
      miner = miner;
    }
    some (record { header = bh; body = packed.0; hash = lib.hash_header bh }, bc')

  unfoldable pub add_block : Block → BlockChain → Option BlockChain
  unfolding has_trie get_update_status_trie
  add_block b bc =
      if not (nat_beq b.header.number (bc.current_block.header.number + 1))
      then some bc
      else if not (b.header.parent_block_hash == bc.current_block.hash)
      then some bc
      else if has_trie lib b.header.state_root bc
      then some (store b bc)
      else get_update_status_trie b.body bc >>= λ r. some (store b r.1)

  unfoldable pub is_valid_block : Block → BlockChain → Bool
  is_valid_block b bc =
      if not (b.header.parent_block_hash == bc.current_block.hash)
      then false
      else get_tx_tree_root lib b.body == b.header.tx_root

  -- The loop of `AddAccounts`; a state is missing where the code's index is out of range.
  unfoldable pub put_accounts :
      BlockChain → List String → List AccountState → Accounts → Option Accounts
  unfolding home_of insert
  put_accounts bc [] states st = some st
  put_accounts bc (addr ∷ addrs) [] st =
      if nat_beq (home_of lib bc addr) bc.shard_id then none else put_accounts bc addrs [] st
  put_accounts bc (addr ∷ addrs) (s ∷ states) st =
      put_accounts bc addrs states
        (if nat_beq (home_of lib bc addr) bc.shard_id then insert addr s st else st)

  unfoldable pub updated_trie :
      List String → List AccountState → BlockChain → Option (Bytes × BlockChain)
  unfolding open_trie put_accounts insert
  updated_trie [] states bc = some (bc.current_block.header.state_root, bc)
  updated_trie (addr ∷ addrs) states bc = do
    st ← open_trie lib bc
    st' ← put_accounts bc (addr ∷ addrs) states st
    some (lib.root_of st', record bc { triedb = insert (lib.root_of st') st' bc.triedb })

  unfoldable pub add_accounts : List String → List AccountState → BlockChain → Option BlockChain
  unfolding updated_trie
  add_accounts addrs states bc = do
    (rt, bc') ← updated_trie addrs states bc
    let bh : BlockHeader = record {
      parent_block_hash = bc.current_block.hash;
      state_root = rt;
      tx_root = get_tx_tree_root lib [];
      bloom = get_bloom_filter [];
      number = bc.current_block.header.number + 1;
      time = 0;
      miner = 0;
    }
    some (store (record { header = bh; body = []; hash = lib.hash_header bh }) bc')
