-- ===== src/Pbft/Rounds.antt =====
-- Runs of a node: any events in any order. A handler that waits is an event that may come again.
pub mod Invariant
pub mod Agreement
mod Examples
use blbchain.Base.{ℕ, ◌≡◌, Option, none, some, List, [], ◌∷◌, Bytes}
use blbchain.Pbft.Votes.{Peer}
use blbchain.Pbft.Node.{
  Request, PrePrepare, Prepare, Commit, RequestOldMessage, SendOldMessage, ViewChangeMsg,
  NewViewMsg, Node, ExtraOp, Sent, Outcome, waits, stuck, crash, done,
}
use blbchain.Pbft.Handlers.{propose, swap_stage, handle_pre_prepare, handle_prepare, handle_commit}
use blbchain.Pbft.CatchUp.{handle_request_old_seq, handle_send_old_seq}
use blbchain.Pbft.ViewChange.{view_change_propose, handle_view_change_msg, handle_new_view_msg}

-- `handleMessage` of pbft.go, with the view that the message's handler has read, and what the node
-- does by itself.
pub data Event : Type 0 where
  proposes : Event
  swaps : Event
  pre_prepare : ℕ → PrePrepare → Event
  prepare : ℕ → Prepare → Event
  commit : ℕ → ℕ → Commit → Event
  request_old : RequestOldMessage → Event
  send_old : SendOldMessage → Event
  times_out : Event
  view_change : ViewChangeMsg → Event
  new_view : ℕ → NewViewMsg → Event

abbrev pub returns : {C : Type 0} → Node C × List Sent → Outcome C
returns (p, out) = done p out

abbrev pub next_run : {C : Type 0} → Outcome C → (Node C → Option (Node C)) → Option (Node C)
next_run waits k = none
next_run stuck k = none
next_run crash k = none
next_run (done p out) k = k p

module _ {C : Type 0} (ops : ExtraOp C) (digest : Request → Bytes) where
  unfoldable pub handle_message : Event → Node C → Outcome C
  handle_message proposes p = propose ops digest p
  handle_message swaps p = done (swap_stage p) []
  handle_message (pre_prepare v m) p = handle_pre_prepare ops digest v m p
  handle_message (prepare v m) p = handle_prepare ops v m p
  handle_message (commit now v m) p = handle_commit ops now v m p
  handle_message (request_old m) p = handle_request_old_seq ops digest m p
  handle_message (send_old m) p = handle_send_old_seq ops digest m p
  handle_message times_out p = returns (view_change_propose p)
  handle_message (view_change m) p = returns (handle_view_change_msg m p)
  handle_message (new_view now m) p = done (handle_new_view_msg now m p) []

  -- The states that the node can be in after the events that have returned.
  pub data Reach (p : Node C) : Node C → Type 0 where
    here : Reach p p
    next :
        {q r : Node C} (e : Event) {out : List Sent}
        → Reach p q
        → handle_message e q ≡ done r out
        → Reach p r

  -- The events one after the other; `none` where one does not return.
  unfoldable pub run : List Event → Node C → Option (Node C)
  unfolding handle_message propose swap_stage handle_pre_prepare handle_prepare handle_commit
      handle_request_old_seq handle_send_old_seq view_change_propose handle_view_change_msg
      handle_new_view_msg
  run [] p = some p
  run (e ∷ es) p = next_run (handle_message e p) (λ q. run es q)
