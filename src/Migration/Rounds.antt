-- ===== src/Migration/Rounds.antt =====
-- Runs of a main node under `HandleinPropose` of consensus_shard/pbft_all/pbftInside_moduleCLPA.go, whose
-- two loops wait while the handlers of messages go on: a step of the proposer, or of a handler, in
-- any order. A step that has to wait gives `none`, as one that panics.
pub mod Full
pub mod Invariant
pub mod Steps
pub mod Complete
use blbchain.Base.{
  ℕ, ◌+◌, ◌<◌, ◌≡◌, ◌≢◌, String, Bool, true, false, Option, none, some, ◌>>=◌, List, [], ◌∷◌, Map,
  if◌then◌else◌,
}
use blbchain.Chain.State.{Library, BlockChain}
use blbchain.Migration.{
  AccountTransferMsg, PartitionReady, AccountStateAndTx, ClpaData, ClpaNode, send_partition_ready,
  get_partition_ready, send_accounts_and_txs,
}
use blbchain.Migration.Activation.{
  handle_partition_msg, handle_partition_ready, handle_account_state_and_tx_msg, propose_partition,
  account_transfer_do,
}

-- Where the proposer is: outside of the partition branch, in its first loop, or in its second.
pub data Phase : Type 0 where
  idle waits_ready waits_collect : Phase

pub record Run : Type 0 where
  pub node : ClpaNode
  pub phase : Phase

pub data Event : Type 0 where
  begins : Event
  sends : Event
  proposes : ℕ → Event
  partition_msg : Map String ℕ → Event
  partition_ready : PartitionReady → Event
  account_state_and_tx : AccountStateAndTx → Event
  activates : AccountTransferMsg → Event

abbrev pub to_phase : Phase → ClpaNode → Run
to_phase phase p = record { node = p; phase = phase }

module _ (lib : Library) where
  -- The proposer's part that begins with `PartitionOn`, up to the first loop.
  unfoldable pub begin_step : Phase → ClpaNode → Option Run
  unfolding send_partition_ready
  begin_step idle p =
      if p.cdm.partition_on then some (to_phase waits_ready (send_partition_ready p).1) else none
  begin_step waits_ready p = none
  begin_step waits_collect p = none

  -- The end of the first loop, and the sending.
  unfoldable pub send_step : Phase → ClpaNode → Option Run
  unfolding get_partition_ready send_accounts_and_txs
  send_step idle p = none
  send_step waits_ready p =
      if get_partition_ready p
      then (send_accounts_and_txs lib p >>= λ s. some (to_phase waits_collect s.1))
      else none
  send_step waits_collect p = none

  -- The end of the second loop, and the proposal.
  unfoldable pub propose_step : ℕ → Phase → ClpaNode → Option Run
  unfolding propose_partition
  propose_step now idle p = none
  propose_step now waits_ready p = none
  propose_step now waits_collect p =
      if p.cdm.collect_over
      then (propose_partition now p >>= λ s. some (to_phase idle s.1))
      else none

  unfoldable pub step : Event → Run → Option Run
  unfolding begin_step send_step propose_step handle_partition_msg handle_partition_ready
      handle_account_state_and_tx_msg account_transfer_do
  step begins r = begin_step r.phase r.node
  step sends r = send_step r.phase r.node
  step (proposes now) r = propose_step now r.phase r.node
  step (partition_msg m) r = some (record r { node = handle_partition_msg m r.node })
  step (partition_ready pr) r = some (record r { node = handle_partition_ready pr r.node })
  step (account_state_and_tx at) r =
      some (record r { node = handle_account_state_and_tx_msg at r.node })
  step (activates atm) r = account_transfer_do lib atm r.node >>= λ p. some (record r { node = p })

  -- A message names a shard that there is, and the accounts come from another one.
  abbrev pub IsFrom : ℕ → ℕ → Event → Type 0
  IsFrom shard num begins = Unit
  IsFrom shard num sends = Unit
  IsFrom shard num (proposes now) = Unit
  IsFrom shard num (partition_msg m) = Unit
  IsFrom shard num (partition_ready pr) = pr.from_shard < num
  IsFrom shard num (account_state_and_tx at) = (at.from_shard < num) × (at.from_shard ≢ shard)
  IsFrom shard num (activates atm) = Unit

  -- The states that a run of steps leads to.
  pub data Reach (shard num : ℕ) (r : Run) : Run → Type 0 where
    here : Reach shard num r r
    next :
        {q q' : Run} (e : Event)
        → Reach shard num r q
        → IsFrom shard num e
        → step e q ≡ some q'
        → Reach shard num r q'
