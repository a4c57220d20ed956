-- ===== src/Migration.antt =====
-- The account transfer of the CLPA methods: consensus_shard/pbft_all/accountTransfer_module.go,
-- pbftOutside_moduleCLPA.go, dataSupport/clpaData_Extra.go and message/message_CLPA.go. Sending is the
-- list of messages that an operation returns, each with the shard it goes to; `none` is where the code
-- panics. A mutex makes the operation that holds it one step.
pub mod Pool
pub mod Activation
pub mod Sending
pub mod Acceptance
pub mod Moved
pub mod Rounds
mod Examples
use blbchain.Base.{
  ℕ, zero, suc, ◌+◌, ◌-◌, ◌^◌, String, string_eq, nat_eq, Bool, true, false, not, ◌&&◌, ◌||◌, ◌==◌,
  nat_beq, Option, none, some, ◌>>=◌, List, [], ◌∷◌, ◌++◌, Bytes, Map, lookup, insert, or_zero,
  is_some, if◌then◌else◌, length, get_elem?, set, take, map,
}
use blbchain.Core.Transaction.{Transaction}
use blbchain.Core.TxPool.{TxPool, add_txs}
use blbchain.Core.Block.{AccountState}
use blbchain.Chain.State.{Library, BlockChain, get_partition_map, update_partition_map}
use blbchain.Chain.Blocks.{fetch_accounts, add_accounts}
use blbchain.Pbft.Node.{u64}

pub record AccountTransferMsg : Type 0 where
  pub modified_map : Map String ℕ
  pub addrs : List String
  pub account_state : List AccountState
  pub atid : ℕ

pub record PartitionReady : Type 0 where
  pub from_shard : ℕ
  pub now_seq_id : ℕ

pub record AccountStateAndTx : Type 0 where
  pub addrs : List String
  pub account_state : List AccountState
  pub txs : List Transaction
  pub from_shard : ℕ

-- `Data_supportCLPA`.
pub record ClpaData : Type 0 where
  pub modified_map : List (Map String ℕ)
  pub account_transfer_round : ℕ
  pub received_new_account_state : Map String AccountState
  pub received_new_tx : List Transaction
  pub account_state_tx : Map ℕ AccountStateAndTx
  pub partition_on : Bool
  pub partition_ready : Map ℕ Bool
  pub ready_seq : Map ℕ ℕ
  pub collect_over : Bool

unfoldable pub new_clpa_data : ClpaData
new_clpa_data = record {
  modified_map = [];
  account_transfer_round = 0;
  received_new_account_state = [];
  received_new_tx = [];
  account_state_tx = [];
  partition_on = false;
  partition_ready = [];
  ready_seq = [];
  collect_over = false;
}

-- The parts of the node that the transfer reads and changes.
pub record ClpaNode : Type 0 where
  pub chain : BlockChain
  pub sequence_id : ℕ
  pub seq_id_map : Map ℕ ℕ
  pub cdm : ClpaData

-- The loop over the shards from `sid` on; `n` are left.
unfoldable pub ready_msgs : PartitionReady → ℕ → ℕ → List (ℕ × PartitionReady)
ready_msgs pr sid zero = []
ready_msgs pr sid (suc n) =
    let rest = ready_msgs pr (sid + 1) n in
    if nat_beq sid pr.from_shard then rest else (sid, pr) ∷ rest

unfoldable pub send_partition_ready : ClpaNode → List (ℕ × PartitionReady) × ClpaNode
unfolding ready_msgs insert
send_partition_ready p =
    let pr : PartitionReady = record {
      from_shard = p.chain.shard_id;
      now_seq_id = p.sequence_id;
    } in
    (
      ready_msgs pr 0 p.chain.shard_num,
      record p {
        cdm = record (p.cdm) {
          partition_ready = insert p.chain.shard_id true p.cdm.partition_ready;
        };
      },
    )

-- Has each shard that was heard of made no block since it said that it was ready?
unfoldable pub seqs_match : Map ℕ ℕ → Map ℕ ℕ → Bool
unfolding lookup
seqs_match [] ready_seq = true
seqs_match ((sid, val) ∷ seqs) ready_seq =
    let rest = seqs_match seqs ready_seq in
    elim (lookup sid ready_seq) [
      | none ↦ false
      | some rval ↦ if nat_beq (u64 (rval + 2 ^ 64 - 1)) val then rest else false
    ]

unfoldable pub get_partition_ready : ClpaNode → Bool
unfolding seqs_match
get_partition_ready p =
    nat_beq (length p.cdm.partition_ready) p.chain.shard_num
    && seqs_match p.seq_id_map p.cdm.ready_seq

-- `ModifiedMap[addr]`: a missing address reads as shard 0.
unfoldable pub new_shard : Map String ℕ → String → ℕ
unfolding lookup
new_shard modified addr = or_zero (lookup addr modified) 0

abbrev pub last_map : List (Map String ℕ) → Option (Map String ℕ)
last_map [] = none
last_map (m ∷ []) = some m
last_map (m ∷ n ∷ ms) = last_map (n ∷ ms)

unfoldable pub has_addr : String → List String → Bool
has_addr addr [] = false
has_addr addr (a ∷ addrs) = a == addr || has_addr addr addrs

-- Does the transaction go where these addresses go: by its sender, or the second time by its recipient?
unfoldable pub goes_with : List String → Transaction → Bool
unfolding has_addr
goes_with addrs tx =
    (has_addr tx.sender addrs && not tx.relayed) || (has_addr tx.recipient addrs && tx.relayed)

-- The loop with two pointers, which moves what stays to the front of the queue; `n` rounds are left.
unfoldable pub fetch_loop :
    (Transaction → Bool)
    → ℕ
    → ℕ
    → ℕ
    → List Transaction
    → List Transaction
    → List Transaction × List Transaction
fetch_loop leaves zero first second queue sent = (take first queue, sent)
fetch_loop leaves (suc n) first second queue sent = elim (get_elem? queue second) [
  | none ↦ (take first queue, sent)
  | some ptx ↦ elim (leaves ptx) [
    | true ↦ fetch_loop leaves n first (second + 1) queue (sent ++ ptx ∷ [])
    | false ↦ fetch_loop leaves n (first + 1) (second + 1) (set queue first ptx) sent
  ]
]

-- What stays in the queue, and what is sent.
unfoldable pub fetch_txs : List String → List Transaction → List Transaction × List Transaction
unfolding fetch_loop goes_with
fetch_txs addrs queue = fetch_loop (goes_with addrs) (length queue) 0 0 queue []

-- The accounts that go to a shard, with their states; a missing state is an index out of range.
unfoldable pub select_accounts :
    Map String ℕ → ℕ → List String → List AccountState → Option (List (String × AccountState))
unfolding new_shard
select_accounts modified i [] states = some []
select_accounts modified i (addr ∷ addrs) [] =
    let rest = select_accounts modified i addrs [] in
    if nat_beq (new_shard modified addr) i then none else rest
select_accounts modified i (addr ∷ addrs) (s ∷ states) =
    let rest = select_accounts modified i addrs states in
    if nat_beq (new_shard modified addr) i then (rest >>= λ r. some ((addr, s) ∷ r)) else rest

module _ (lib : Library) where
  -- The keys of the new partition that leave this shard.
  unfoldable pub accounts_to_fetch : BlockChain → Map String ℕ → Option (List String)
  unfolding get_partition_map
  accounts_to_fetch bc [] = some []
  accounts_to_fetch bc ((key, val) ∷ m) =
      let rest = accounts_to_fetch bc m in
      if nat_beq val bc.shard_id then rest else (do
        home ← get_partition_map lib bc key
        keys ← rest
        some (if nat_beq home bc.shard_id then key ∷ keys else keys))

-- The loop over the shards from `sid` on, of which `n` are left, over the pool's queue.
module _ (shard : ℕ) (modified : Map String ℕ) (addrs : List String)
    (states : List AccountState) where
  unfoldable pub send_loop :
      ℕ → ℕ → List Transaction → Option (List (ℕ × AccountStateAndTx) × List Transaction)
  unfolding select_accounts fetch_txs
  send_loop sid zero queue = some ([], queue)
  send_loop sid (suc n) queue = elim (nat_beq sid shard) [
    | true ↦ send_loop (sid + 1) n queue
    | false ↦ do
      accounts ← select_accounts modified sid addrs states
      let (stay, sent) = fetch_txs (map (λ e. e.0) accounts) queue
      let ast : AccountStateAndTx = record {
        addrs = map (λ e. e.0) accounts;
        account_state = map (λ e. e.1) accounts;
        txs = sent;
        from_shard = shard;
      }
      (msgs, left) ← send_loop (sid + 1) n stay
      some ((sid, ast) ∷ msgs, left)
  ]

module _ (lib : Library) where
  unfoldable pub send_accounts_and_txs : ClpaNode → Option (List (ℕ × AccountStateAndTx) × ClpaNode)
  unfolding accounts_to_fetch fetch_accounts send_loop
  send_accounts_and_txs p = do
    modified ← last_map p.cdm.modified_map
    addrs ← accounts_to_fetch lib p.chain modified
    states ← fetch_accounts lib addrs p.chain
    (msgs, left) ←
        send_loop p.chain.shard_id modified addrs states 0 p.chain.shard_num
          p.chain.tx_pool.tx_queue
    let bc = record (p.chain) { tx_pool = record (p.chain.tx_pool) { tx_queue = left } }
    some (msgs, record p { chain = bc })
