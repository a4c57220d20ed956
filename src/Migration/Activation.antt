-- ===== src/Migration/Activation.antt =====
-- The shard that receives: the messages of the transfer, the proposal of the new partition and its
-- activation.
use blbchain.Base.{
  ℕ, ◌+◌, String, string_eq, nat_eq, Bool, true, false, not, ◌||◌, nat_beq, Option, none, some,
  ◌>>=◌, List, [], ◌∷◌, ◌++◌, Map, insert, if◌then◌else◌, length, get_elem?, map,
}
use blbchain.Core.Transaction.{Transaction}
use blbchain.Core.Block.{AccountState}
use blbchain.Chain.State.{Library, BlockChain, update_partition_map, send_tx2pool}
use blbchain.Chain.Blocks.{add_accounts}
use blbchain.Migration.{AccountTransferMsg, PartitionReady, AccountStateAndTx, ClpaNode, new_shard}

unfoldable pub handle_partition_msg : Map String ℕ → ClpaNode → ClpaNode
handle_partition_msg modified p = record p {
  cdm = record (p.cdm) { modified_map = p.cdm.modified_map ++ modified ∷ []; partition_on = true };
}

unfoldable pub handle_partition_ready : PartitionReady → ClpaNode → ClpaNode
unfolding insert
handle_partition_ready pr p = record p {
  cdm = record (p.cdm) {
    partition_ready = insert pr.from_shard true p.cdm.partition_ready;
    ready_seq = insert pr.from_shard pr.now_seq_id p.cdm.ready_seq;
  };
}

-- `int(ShardNums) - 1` is negative where there is no shard: `length + 1` is compared.
unfoldable pub handle_account_state_and_tx_msg : AccountStateAndTx → ClpaNode → ClpaNode
unfolding insert
handle_account_state_and_tx_msg at p =
    let got = insert at.from_shard at p.cdm.account_state_tx in
    record p {
      cdm = record (p.cdm) {
        account_state_tx = got;
        collect_over = nat_beq (length got + 1) p.chain.shard_num || p.cdm.collect_over;
      };
    }

-- A message's addresses with their states; a missing state is an index out of range.
unfoldable pub put_states :
    List String → List AccountState → Map String AccountState → Option (Map String AccountState)
unfolding insert
put_states [] states m = some m
put_states (addr ∷ addrs) [] m = none
put_states (addr ∷ addrs) (s ∷ states) m = put_states addrs states (insert addr s m)

-- The loop that joins the messages.
unfoldable pub collect :
    Map ℕ AccountStateAndTx
    → Map String AccountState
    → List Transaction
    → Option (Map String AccountState × List Transaction)
unfolding put_states
collect [] accounts txs = some (accounts, txs)
collect ((from, at) ∷ ats) accounts txs = do
  accounts' ← put_states at.addrs at.account_state accounts
  collect ats accounts' (txs ++ at.txs)

-- Is the transaction one that this shard gets under the new partition?
unfoldable pub is_ours : ℕ → Map String ℕ → Transaction → Bool
unfolding new_shard
is_ours shard modified tx =
    if tx.relayed
    then nat_beq (new_shard modified tx.recipient) shard
    else nat_beq (new_shard modified tx.sender) shard

-- The loop that panics at a transaction of another shard.
unfoldable pub all_ours : ℕ → Map String ℕ → List Transaction → Bool
unfolding is_ours
all_ours shard modified [] = true
all_ours shard modified (tx ∷ txs) =
    let rest = all_ours shard modified txs in if is_ours shard modified tx then rest else false

-- The content of the request, and the node with the transactions in its pool. An index out of range
-- of `ModifiedMap` panics where there is a transaction or not: the message reads it too.
unfoldable pub propose_partition : ℕ → ClpaNode → Option (AccountTransferMsg × ClpaNode)
unfolding collect all_ours send_tx2pool
propose_partition now p = do
  (accounts, txs) ←
      collect p.cdm.account_state_tx p.cdm.received_new_account_state p.cdm.received_new_tx
  modified ← get_elem? p.cdm.modified_map p.cdm.account_transfer_round
  if all_ours p.chain.shard_id modified txs
      then some (
        record {
          modified_map = modified;
          addrs = map (λ e. e.0) accounts;
          account_state = map (λ e. e.1) accounts;
          atid = length p.cdm.modified_map;
        },
        record p {
          chain = send_tx2pool now txs p.chain;
          cdm = record (p.cdm) { received_new_account_state = accounts; received_new_tx = txs };
        },
      )
      else none

unfoldable pub update_all : Map String ℕ → BlockChain → BlockChain
unfolding update_partition_map
update_all [] bc = bc
update_all ((key, val) ∷ m) bc = update_all m (update_partition_map key val bc)

-- The node after the chain has taken the accounts: the data of the round are cleared.
abbrev pub activated : AccountTransferMsg → ClpaNode → BlockChain → ClpaNode
activated atm p bc = record p {
  chain = bc;
  cdm = record (p.cdm) {
    modified_map =
        if not (nat_beq (length p.cdm.modified_map) atm.atid)
        then p.cdm.modified_map ++ atm.modified_map ∷ []
        else p.cdm.modified_map;
    account_transfer_round = atm.atid;
    account_state_tx = [];
    received_new_account_state = [];
    received_new_tx = [];
    partition_on = false;
    collect_over = false;
    partition_ready = [];
  };
}

unfoldable pub account_transfer_do : Library → AccountTransferMsg → ClpaNode → Option ClpaNode
unfolding update_all add_accounts
account_transfer_do lib atm p = do
  bc ← add_accounts lib atm.addrs atm.account_state (update_all atm.modified_map p.chain)
  some (activated atm p bc)
