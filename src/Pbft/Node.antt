-- ===== src/Pbft/Node.antt =====
-- The messages of message/message.go and message/message_viewChange.go, and the state of
-- `PbftConsensusNode` in consensus_shard/pbft_all/pbft.go with what `NewPbftNode` puts there.
-- Fields that only log, connect or stop are left out. The chain and the module chosen by the
-- committee method are a type `C` and an `ExtraOp` over it.
use blbchain.Base.{
  ℕ, ◌+◌, ◌-◌, ◌/◌, ◌%◌, ◌^◌, ◌≡◌, Bool, true, false, ◌&&◌, List, [], Option, Bytes, Map,
  Comparable, nat_beq, ◌↔◌, arith,
}
use blbchain.Pbft.Votes.{Peer}

abbrev pub u64 : ℕ → ℕ
u64 n = n % 2 ^ 64

pub data RequestType : Type 0 where
  block_request partition_req other_request : RequestType

pub record Request : Type 0 where
  pub request_type : RequestType
  pub content : Bytes
  pub req_time : ℕ

pub record PrePrepare : Type 0 where
  pub request_msg : Request
  pub digest : Bytes
  pub seq_id : ℕ

pub record Prepare : Type 0 where
  pub digest : Bytes
  pub seq_id : ℕ
  pub sender_node : Peer

pub record Commit : Type 0 where
  pub digest : Bytes
  pub seq_id : ℕ
  pub sender_node : Peer

pub record RequestOldMessage : Type 0 where
  pub seq_start_height : ℕ
  pub seq_end_height : ℕ
  pub server_node : ℕ  -- the server's node number, from which the code looks up its address
  pub sender_node : Peer

pub record SendOldMessage : Type 0 where
  pub seq_start_height : ℕ
  pub seq_end_height : ℕ
  pub old_request : List Request
  pub sender_node : Peer

pub record ViewChangeMsg : Type 0 where
  pub cur_view : ℕ
  pub next_view : ℕ
  pub seq_id : ℕ
  pub from_node : ℕ

pub record NewViewMsg : Type 0 where
  pub cur_view : ℕ
  pub next_view : ℕ
  pub new_seq_id : ℕ
  pub from_node : ℕ

pub record ViewChangeData : Type 0 where
  pub next_view : ℕ
  pub seq_id : ℕ

abbrev view_change_data_beq : ViewChangeData → ViewChangeData → Bool
view_change_data_beq a b = nat_beq a.next_view b.next_view && nat_beq a.seq_id b.seq_id

pub view_change_data_beq_iff : (a b : ViewChangeData) → (view_change_data_beq a b ≡ true) ↔ (a ≡ b)
view_change_data_beq_iff a b = ground arith

instance abbrev pub view_change_data_eq : Comparable ViewChangeData
view_change_data_eq = record {
  equals = view_change_data_beq;
  equals_iff = view_change_data_beq_iff;
}

pub record Node (C : Type 0) : Type 0 where
  pub running_node : Peer
  pub shard_id : ℕ
  pub node_id : ℕ
  pub cur_chain : C
  pub node_nums : ℕ
  pub malicious_nums : ℕ
  pub view : ℕ
  pub last_commit_time : ℕ
  pub view_change_map : Map ViewChangeData (List ℕ)
  pub new_view_map : Map ViewChangeData (List ℕ)
  pub sequence_id : ℕ
  pub request_pool : Map Bytes Request
  pub cnt_prepare_confirm : Map Bytes (List Peer)
  pub cnt_commit_confirm : Map Bytes (List Peer)
  pub is_commit_broadcast : Map Bytes Bool
  pub is_reply : Map Bytes Bool
  pub height2digest : Map ℕ Bytes
  pub pbft_stage : ℕ  -- an int32: 1 pre-prepare, 2 prepare, 3 commit, 4 done, 5 view change
  pub sequence_lock : Bool  -- held?
  pub ask_for_lock : Bool  -- held?

-- `NewPbftNode`: `number` is the current block's number, `now` is five seconds from the start.
unfoldable pub new_pbft_node : {C : Type 0} → Peer → C → ℕ → ℕ → ℕ → Node C
new_pbft_node running chain number nodes now = record {
  running_node = running;
  shard_id = running.shard_id;
  node_id = running.node_id;
  cur_chain = chain;
  node_nums = nodes;
  malicious_nums = u64 (nodes + 2 ^ 64 - 1) / 3;
  view = 0;
  last_commit_time = now;
  view_change_map = [];
  new_view_map = [];
  sequence_id = u64 (number + 1);
  request_pool = [];
  cnt_prepare_confirm = [];
  cnt_commit_confirm = [];
  is_commit_broadcast = [];
  is_reply = [];
  height2digest = [];
  pbft_stage = 1;
  sequence_lock = false;
  ask_for_lock = false;
}

-- The interface `ExtraOpInConsensus` of pbftMod_interface.go, over the chain that its methods change.
-- `commit` gets whether the node is the view's main node, and the request pool's entry.
pub record ExtraOp (C : Type 0) : Type 0 where
  pub propose : C → Request × C
  pub pre_prepare : PrePrepare → C → Bool × C
  pub prepare : Prepare → C → C
  pub commit : Bool → Commit → Option Request → C → C
  pub request_old : RequestOldMessage → C → C
  pub sequential : SendOldMessage → C → C

-- What a node sends: to all nodes of the shard and itself, or to one node.
pub data Sent : Type 0 where
  pre_prepares : PrePrepare → Sent
  prepares : Prepare → Sent
  commits : Commit → Sent
  asks : RequestOldMessage → Sent
  answers : SendOldMessage → Sent
  view_changes : ViewChangeMsg → Sent
  new_views : NewViewMsg → Sent

-- How a handler's run ends: it waits on the condition variable or on `sequenceLock`, with nothing
-- changed; it waits on `askForLock` with the other locks held; it unlocks a free mutex, at which Go
-- stops the program; or it returns.
pub data Outcome (C : Type 0) : Type 0 where
  waits : Outcome C
  stuck : Outcome C
  crash : Outcome C
  done : Node C → List Sent → Outcome C
