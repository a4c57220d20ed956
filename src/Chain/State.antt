-- ===== src/Chain/State.antt =====
-- The state of `BlockChain`, and the shard that an address belongs to (utils/utils_partition.go).
-- A state trie is the map of the accounts in it, and the trie database maps a root to its trie; the
-- block store is the list of the blocks added, newest first.
use Prim.Native.String.{len, slice}
use blbchain.Base.{
  ℕ, ◌+◌, ◌-◌, ◌*◌, ◌%◌, map, Bool, List, [], ◌∷◌, String, string_eq, Bytes, Map, lookup, insert,
  or_zero, or_else, or_else-or_zero, is_some, ◌≡◌, Option, some, true, ◌>>=◌, ltb, if◌then◌else◌,
}
use blbchain.Core.Transaction.{Transaction}
use blbchain.Core.TxPool.{TxPool, add_txs}
use blbchain.Core.Block.{Block, BlockHeader, AccountState}

abbrev pub Accounts : Type 0
Accounts = Map String AccountState

-- What the code takes from libraries: the root of a trie of accounts, the hash of a header's
-- encoding, the root of a trie of keys, which roots `trie.New` takes for the empty trie (the zero hash
-- and the hash of the empty trie; a missing root is padded to the zero hash), and `strconv.ParseUint` at base 16 of an address's end,
-- where the program stops if that is no hexadecimal number.
pub record Library : Type 0 where
  pub root_of : Accounts → Bytes
  pub hash_header : BlockHeader → Bytes
  pub tree_root : List Bytes → Bytes
  pub is_empty_root : Bytes → Bool
  pub parse_uint : String → Option ℕ

pub record BlockChain : Type 0 where
  pub shard_id : ℕ
  pub shard_num : ℕ
  pub block_size : ℕ
  pub init_balance : ℕ
  pub tx_pool : TxPool
  pub current_block : Block
  pub storage : List Block
  pub triedb : Map Bytes Accounts
  pub partition_map : Map String ℕ

unfoldable pub get_tx_tree_root : Library → List Transaction → Bytes
get_tx_tree_root lib txs = lib.tree_root (map (λ tx. tx.tx_hash) txs)

-- `big.Int.SetBytes`: the number that the bytes write, the first one the highest.
unfoldable pub set_bytes : ℕ → Bytes → ℕ
set_bytes acc [] = acc
set_bytes acc (b ∷ bs) = set_bytes (acc * 256 + b) bs

unfoldable pub mod_bytes : Bytes → ℕ → ℕ
unfolding set_bytes
mod_bytes bs n = set_bytes 0 bs % n

-- The bits that are set, one for each transaction.
unfoldable pub get_bloom_filter : List Transaction → List ℕ
unfolding mod_bytes
get_bloom_filter txs = map (λ tx. mod_bytes tx.tx_hash 2048) txs

-- Where the address is no hexadecimal number, the program stops.
unfoldable pub addr2shard : Library → ℕ → String → Option ℕ
addr2shard lib shard_num addr =
    let last8 = if ltb 8 (len addr) then slice addr (len addr - 8) (len addr) else addr in
    do num ← lib.parse_uint last8; some (num % shard_num)

-- The shard that it finds; 0 where the program stops.
unfoldable pub default_shard : Library → ℕ → String → ℕ
unfolding addr2shard
default_shard lib shard_num addr = or_zero (addr2shard lib shard_num addr) 0

unfoldable pub update_partition_map : String → ℕ → BlockChain → BlockChain
unfolding insert
update_partition_map key val bc = record bc { partition_map = insert key val bc.partition_map }

unfoldable pub get_partition_map : Library → BlockChain → String → Option ℕ
unfolding lookup addr2shard
get_partition_map lib bc key =
    or_else (lookup key bc.partition_map) (addr2shard lib bc.shard_num key)

-- The shard that `Get_PartitionMap` finds; 0 for an address where the program stops.
unfoldable pub home_of : Library → BlockChain → String → ℕ
unfolding lookup addr2shard
home_of lib bc key =
    or_zero (lookup key bc.partition_map) (or_zero (addr2shard lib bc.shard_num key) 0)

-- Does it find one?
unfoldable pub has_home : Library → BlockChain → String → Bool
unfolding get_partition_map
has_home lib bc key = is_some (get_partition_map lib bc key)

pub get_partition_map-home_of :
    (lib : Library) (bc : BlockChain) (key : String)
    → has_home lib bc key ≡ true
    → get_partition_map lib bc key ≡ some (home_of lib bc key)
unfolding get_partition_map home_of has_home
get_partition_map-home_of lib bc key known =
    or_else-or_zero (lookup key bc.partition_map) (addr2shard lib bc.shard_num key) known

unfoldable pub send_tx2pool : ℕ → List Transaction → BlockChain → BlockChain
unfolding add_txs
send_tx2pool now txs bc = record bc { tx_pool = add_txs now txs bc.tx_pool }
