-- ===== src/Committee/Clpa.antt =====
-- supervisor/committee/committee_clpa.go. The lock makes a partition round and the handling of a report one step
-- each; the clock, which says when a round is due, is outside the model.
use blbchain.Base.{
  ℕ, zero, suc, ◌+◌, String, string_eq, nat_eq, Option, none, some, or_else, is_some, all_true,
  ◌>>=◌, List, [], ◌∷◌, Map, lookup, insert, or_zero, nat_beq, if◌then◌else◌,
}
use blbchain.Core.Transaction.{Transaction}
use blbchain.Chain.State.{Library, addr2shard, default_shard}
use blbchain.Relay.{BlockInfoMsg}
use blbchain.Partition.{Floats, ClpaState, Graph}
use blbchain.Partition.Clpa.{init_clpa_state, clpa_add_edge, clpa_partition}
use blbchain.Committee.{InjectTxs, tx_sending}

pub record ClpaCommittee (F : Type 0) : Type 0 where
  pub cur_epoch : ℕ
  pub clpa_graph : ClpaState F
  pub modified_map : Map String ℕ

-- The message to each shard's first node.
pub record PartitionModifiedMap : Type 0 where
  pub partition_modified : Map String ℕ

unfoldable pub clpa_map_send : ℕ → ℕ → Map String ℕ → List (ℕ × PartitionModifiedMap)
clpa_map_send i zero m = []
clpa_map_send i (suc n) m = (i, record { partition_modified = m }) ∷ clpa_map_send (suc i) n m

-- `for key, val := range mmap { m[key] = val }`.
unfoldable pub merge : Map String ℕ → Map String ℕ → Map String ℕ
unfolding insert
merge [] m = m
merge ((key, val) ∷ mmap) m = merge mmap (insert key val m)

module _ {F : Type 0} (half_weight : F) (shard_num : ℕ) where
  unfoldable pub new_clpa_committee : ClpaCommittee F
  unfolding init_clpa_state
  new_clpa_committee = record {
    cur_epoch = 0;
    clpa_graph = init_clpa_state half_weight 100 shard_num;
    modified_map = [];
  }

  unfoldable pub clpa_reset : ClpaCommittee F → ClpaCommittee F
  unfolding init_clpa_state merge
  clpa_reset ccm =
      let graph = init_clpa_state half_weight 100 shard_num in
      record ccm {
        clpa_graph = record graph { partition_map = merge ccm.modified_map graph.partition_map };
      }

  -- A round of `MsgSendingControl` between lock and unlock.
  unfoldable pub clpa_round :
      Floats F
      → (ℕ → List String)
      → ClpaCommittee F
      → Option (List (ℕ × PartitionModifiedMap) × ClpaCommittee F)
  unfolding clpa_partition clpa_map_send merge clpa_reset
  clpa_round ops order ccm = do
    (mmap, cross, graph) ← clpa_partition ops order ccm.clpa_graph
    some (
      clpa_map_send 0 shard_num mmap,
      clpa_reset (record ccm { clpa_graph = graph; modified_map = merge mmap ccm.modified_map }),
    )

module _ {F : Type 0} (lib : Library) (shard_num : ℕ) where
  unfoldable pub fetch_modified_map : String → ClpaCommittee F → Option ℕ
  unfolding lookup addr2shard
  fetch_modified_map key ccm = or_else (lookup key ccm.modified_map) (addr2shard lib shard_num key)

  -- The shard that it finds; 0 where the program stops.
  unfoldable pub account_shard : String → ClpaCommittee F → ℕ
  unfolding lookup default_shard
  account_shard key ccm = or_zero (lookup key ccm.modified_map) (default_shard lib shard_num key)

  unfoldable pub clpa_tx_sending : ℕ → List Transaction → ClpaCommittee F → Option (List InjectTxs)
  unfolding tx_sending fetch_modified_map account_shard
  clpa_tx_sending inject_speed txlist ccm =
      if all_true (λ tx. is_some (fetch_modified_map tx.sender ccm)) txlist
      then tx_sending shard_num inject_speed (λ tx. account_shard tx.sender ccm) txlist
      else none

  unfoldable pub add_edges : List Transaction → ClpaState F → Option (ClpaState F)
  unfolding clpa_add_edge addr2shard
  add_edges [] cs = some cs
  add_edges (tx ∷ txs) cs =
      clpa_add_edge (addr2shard lib shard_num) tx.sender tx.recipient cs >>= λ cs'.
      add_edges txs cs'

  unfoldable pub handle_block_info : ℕ → BlockInfoMsg → ClpaCommittee F → Option (ClpaCommittee F)
  unfolding add_edges
  handle_block_info epoch b ccm =
      let ccm' = record ccm {
        cur_epoch = if nat_beq (ccm.cur_epoch + 1) epoch then epoch else ccm.cur_epoch;
      } in
      if nat_beq b.block_body_length 0 then some ccm' else (do
        inner ← add_edges b.inner_shard_txs ccm'.clpa_graph
        both ← add_edges b.relay2_txs inner
        some (record ccm' { clpa_graph = both }))

-- What takes the lock: a partition round that is due, or a report of a block.
pub data ClpaEvent : Type 0 where
  due : ClpaEvent
  reported : ℕ → BlockInfoMsg → ClpaEvent

-- `order` gives the vertices of a graph in the orders of the loops over them.
module _ {F : Type 0} (half_weight : F) (ops : Floats F) (order : Graph → ℕ → List String)
    (lib : Library) (shard_num : ℕ) where
  unfoldable pub clpa_step :
      ClpaEvent → ClpaCommittee F → Option (List (ℕ × PartitionModifiedMap) × ClpaCommittee F)
  unfolding clpa_round handle_block_info
  clpa_step due ccm = clpa_round half_weight shard_num ops (order ccm.clpa_graph.net_graph) ccm
  clpa_step (reported epoch b) ccm =
      handle_block_info lib shard_num epoch b ccm >>= λ ccm'. some ([], ccm')

  unfoldable pub clpa_run :
      List ClpaEvent
      → ClpaCommittee F
      → Option (List (List (ℕ × PartitionModifiedMap)) × ClpaCommittee F)
  unfolding clpa_step
  clpa_run [] ccm = some ([], ccm)
  clpa_run (event ∷ events) ccm = do
    (msgs, ccm') ← clpa_step event ccm
    (later, done) ← clpa_run events ccm'
    some (msgs ∷ later, done)
