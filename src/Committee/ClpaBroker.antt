-- ===== src/Committee/ClpaBroker.antt =====
-- supervisor/committee/committee_clpa_broker.go: the CLPA committee and the broker committee in one. Where the
-- broker committee takes an address's shard, this one takes the shard of the map of moved accounts.
-- Each operation is taken as one step, without others in between: the code locks and unlocks for each transaction and
-- for each part.
use blbchain.Base.{
  ℕ, ◌+◌, String, string_eq, Option, some, ◌>>=◌, List, [], ◌∷◌, ◌++◌, nat_beq, if◌then◌else◌,
}
use blbchain.Core.Transaction.{Transaction}
use blbchain.Chain.State.{Library, addr2shard}
use blbchain.Partition.{Floats, ClpaState}
use blbchain.Partition.Clpa.{clpa_add_edge}
use blbchain.Committee.{InjectTxs}
use blbchain.Committee.Clpa.{
  ClpaCommittee, PartitionModifiedMap, new_clpa_committee, fetch_modified_map, clpa_round,
}
use blbchain.Committee.Broker.{
  BrokerCommittee, BrokerLibrary, BrokerBlockInfo, new_broker_committee, broker_tx_sending,
  deal_tx_by_broker, create_confirm,
}

pub record ClpaBrokerCommittee (F : Type 0) : Type 0 where
  pub clpa : ClpaCommittee F
  pub brokers : BrokerCommittee

-- The message of a shard whose inner transactions became transactions between shards.
pub record InnerTx2CrossTx : Type 0 where
  pub txs : List Transaction

module _ {F : Type 0} (half_weight : F) (shard_num : ℕ) where
  unfoldable pub new_clpa_broker_committee : List String → ClpaBrokerCommittee F
  unfolding new_clpa_committee new_broker_committee
  new_clpa_broker_committee addresses = record {
    clpa = new_clpa_committee half_weight shard_num;
    brokers = new_broker_committee addresses;
  }

  unfoldable pub clpa_broker_round :
      Floats F
      → (ℕ → List String)
      → ClpaBrokerCommittee F
      → Option (List (ℕ × PartitionModifiedMap) × ClpaBrokerCommittee F)
  unfolding clpa_round
  clpa_broker_round ops order ccm = do
    (msgs, clpa') ← clpa_round half_weight shard_num ops order ccm.clpa
    some (msgs, record ccm { clpa = clpa' })

module _ {F : Type 0} (lib : Library) (shard_num : ℕ) where
  abbrev pub clpa_fetch : ClpaBrokerCommittee F → String → Option ℕ
  clpa_fetch ccm key = fetch_modified_map lib shard_num key ccm.clpa

  -- The loop over the inner transactions of a report; those that a broker sends or receives are passed over.
  unfoldable pub add_inner_edges : List Transaction → ClpaState F → Option (ClpaState F)
  unfolding clpa_add_edge addr2shard
  add_inner_edges [] cs = some cs
  add_inner_edges (tx ∷ txs) cs =
      (if tx.has_broker
        then some cs
        else clpa_add_edge (addr2shard lib shard_num) tx.sender tx.recipient cs)
      >>= λ cs'. add_inner_edges txs cs'

  -- The loop over the first halves: the edge is that of the raw transaction.
  unfoldable pub add_broker_edges : List Transaction → ClpaState F → Option (ClpaState F)
  unfolding clpa_add_edge addr2shard
  add_broker_edges [] cs = some cs
  add_broker_edges (tx ∷ txs) cs =
      clpa_add_edge (addr2shard lib shard_num) tx.original_sender tx.final_recipient cs >>= λ cs'.
      add_broker_edges txs cs'

module _ {F : Type 0} (blib : BrokerLibrary) (lib : Library) (shard_num inject_speed : ℕ) where
  unfoldable pub clpa_broker_tx_sending :
      List Transaction → ClpaBrokerCommittee F → Option (List InjectTxs)
  unfolding broker_tx_sending fetch_modified_map
  clpa_broker_tx_sending txlist ccm =
      broker_tx_sending (clpa_fetch lib shard_num ccm) shard_num inject_speed txlist ccm.brokers

  unfoldable pub clpa_broker_deal :
      List Transaction
      → ClpaBrokerCommittee F
      → Option (List Transaction × List InjectTxs × ClpaBrokerCommittee F)
  unfolding deal_tx_by_broker fetch_modified_map
  clpa_broker_deal txs ccm = do
    (itxs, sent, brokers') ←
        deal_tx_by_broker blib (clpa_fetch lib shard_num ccm) shard_num inject_speed txs ccm.brokers
    some (itxs, sent, record ccm { brokers = brokers' })

  -- A batch of the data set, or of transactions that became transactions between shards.
  unfoldable pub clpa_broker_batch :
      List Transaction → ClpaBrokerCommittee F → Option (List InjectTxs × ClpaBrokerCommittee F)
  unfolding clpa_broker_deal clpa_broker_tx_sending
  clpa_broker_batch txs ccm = do
    (itxs, sent, ccm') ← clpa_broker_deal txs ccm
    more ← clpa_broker_tx_sending itxs ccm'
    some (sent ++ more, ccm')

  unfoldable pub handle_other_message :
      InnerTx2CrossTx → ClpaBrokerCommittee F → Option (List InjectTxs × ClpaBrokerCommittee F)
  unfolding clpa_broker_batch
  handle_other_message itct ccm = clpa_broker_batch itct.txs ccm

  unfoldable pub clpa_broker_create_confirm :
      List Transaction → ClpaBrokerCommittee F → Option (List InjectTxs × ClpaBrokerCommittee F)
  unfolding create_confirm fetch_modified_map
  clpa_broker_create_confirm txs ccm = do
    (sent, brokers') ←
        create_confirm blib (clpa_fetch lib shard_num ccm) shard_num inject_speed txs ccm.brokers
    some (sent, record ccm { brokers = brokers' })

  unfoldable pub clpa_broker_block_info :
      ℕ → BrokerBlockInfo → ClpaBrokerCommittee F → Option (List InjectTxs × ClpaBrokerCommittee F)
  unfolding clpa_broker_create_confirm add_inner_edges add_broker_edges
  clpa_broker_block_info epoch b ccm =
      let cur = if nat_beq (ccm.clpa.cur_epoch + 1) epoch then epoch else ccm.clpa.cur_epoch in
      let ccm' = record ccm { clpa = record (ccm.clpa) { cur_epoch = cur } } in
      if nat_beq b.block_body_length 0 then some ([], ccm') else (do
        (sent, ccm'') ← clpa_broker_create_confirm (b.broker1_txs ++ b.broker2_txs) ccm'
        inner ← add_inner_edges lib shard_num b.inner_shard_txs ccm''.clpa.clpa_graph
        both ← add_broker_edges lib shard_num b.broker1_txs inner
        some (sent, record ccm'' { clpa = record (ccm''.clpa) { clpa_graph = both } }))
