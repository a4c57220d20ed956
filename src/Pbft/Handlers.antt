-- ===== src/Pbft/Handlers.antt =====
-- The handlers of consensus_shard/pbft_all/messageHandle.go. `pbftLock` makes a run of one of the
-- three phases one step, and `propose` is taken as one; `cur_view` is the view that the handler reads before it takes the lock. What is decoded from
-- a message's bytes is the argument. `digest` is `getDigest`: SHA-256 of the request's JSON.
pub mod Invariant
pub mod Effects
pub mod Equivocation
use blbchain.Base.{
  ℕ, zero, suc, ◌+◌, ◌-◌, ◌*◌, ◌≤◌, ◌<◌, ◌≡◌, Bool, true, false, not, ◌&&◌, ◌||◌, List, [], ◌∷◌,
  Option, none, some, Bytes, bytes_eq, nat_eq, ◌==◌, ltb, leb, nat_beq, if◌then◌else◌, Map, lookup,
  insert, or_zero, is_some, length,
}
use blbchain.Pbft.Votes.{Peer, voters, set_2d_map}
use blbchain.Pbft.Node.{
  u64, Request, PrePrepare, Prepare, Commit, RequestOldMessage, SendOldMessage, Node, ExtraOp, Sent,
  pre_prepares, prepares, commits, asks, answers, Outcome, waits, stuck, crash, done,
}

abbrev pub flag_of : Bytes → Map Bytes Bool → Bool
flag_of d m = or_zero (lookup d m) false

module _ {C : Type 0} where
  -- Does the wait loop of a handler go on, at the stage that the handler needs?
  unfoldable pub must_wait : ℕ → ℕ → ℕ → Node C → Bool
  must_wait stage seq cur_view p =
      ltb p.pbft_stage stage && leb p.sequence_id seq && nat_beq p.view cur_view

  unfoldable pub out_of_date : ℕ → ℕ → Node C → Bool
  out_of_date seq cur_view p = ltb seq p.sequence_id || not (nat_beq p.view cur_view)

  abbrev pub is_main : Node C → Bool
  is_main p = nat_beq p.node_id p.view

  unfoldable pub put_request : Bytes → ℕ → Request → Node C → Node C
  unfolding insert
  put_request d seq r p = record p {
    request_pool = insert d r p.request_pool;
    height2digest = insert seq d p.height2digest;
  }

  unfoldable pub commit_broadcast : Bytes → Node C → Bool
  unfolding lookup
  commit_broadcast d p = flag_of d p.is_commit_broadcast

  unfoldable pub replied : Bytes → Node C → Bool
  unfolding lookup
  replied d p = flag_of d p.is_reply

  unfoldable pub has_request : Bytes → Node C → Bool
  unfolding lookup
  has_request d p = is_some (lookup d p.request_pool)

  -- The last call of a round of `Propose`, `CompareAndSwap(1, 2)`, which runs beside the handlers.
  unfoldable pub swap_stage : Node C → Node C
  swap_stage p = if nat_beq p.pbft_stage 1 then record p { pbft_stage = 2 } else p

  -- The end of `handlePrepare`'s last branch: with 2f + 1 votes and no commit sent yet, a commit is sent.
  unfoldable pub after_prepare_vote : Prepare → Node C → Outcome C
  unfolding voters commit_broadcast insert
  after_prepare_vote m p =
      let c : Commit = record {
        digest = m.digest;
        seq_id = m.seq_id;
        sender_node = p.running_node;
      } in
      if leb (2 * p.malicious_nums + 1) (length (voters m.digest p.cnt_prepare_confirm))
        && not (commit_broadcast m.digest p)
      then done
          (record p {
            is_commit_broadcast = insert m.digest true p.is_commit_broadcast;
            pbft_stage = p.pbft_stage + 1;
          })
          (commits c ∷ [])
      else done p []

  -- The last lines of `handleCommit`'s branch; the main node gives `sequenceLock` back.
  unfoldable pub end_round : ℕ → List Sent → Node C → Outcome C
  end_round now out p =
      let q = record p { pbft_stage = 1; last_commit_time = now } in
      if is_main p
      then if p.sequence_lock then done (record q { sequence_lock = false }) out else crash
      else done q out

  -- A node that lacks the request asks the main node for it, under `askForLock`.
  unfoldable pub ask_for_old : ℕ → Commit → Node C → Outcome C
  unfolding insert end_round
  ask_for_old now m p =
      let orequest : RequestOldMessage = record {
        seq_start_height = u64 (p.sequence_id + 1);
        seq_end_height = m.seq_id;
        server_node = p.view;
        sender_node = p.running_node;
      } in
      if p.ask_for_lock
      then stuck
      else end_round now (asks orequest ∷ [])
          (record p { is_reply = insert m.digest true p.is_reply; ask_for_lock = true })

  abbrev pub with_prepare_vote : C → Prepare → Node C → Node C
  with_prepare_vote chain m p = record p {
    cur_chain = chain;
    cnt_prepare_confirm = set_2d_map m.digest m.sender_node p.cnt_prepare_confirm;
  }

  abbrev pub with_commit_vote : Commit → Node C → Node C
  with_commit_vote m p = record p {
    cnt_commit_confirm = set_2d_map m.digest m.sender_node p.cnt_commit_confirm;
  }

module _ {C : Type 0} (ops : ExtraOp C) where
  unfoldable pub handle_prepare : ℕ → Prepare → Node C → Outcome C
  unfolding must_wait out_of_date has_request set_2d_map after_prepare_vote
  handle_prepare cur_view m p =
      if must_wait 2 m.seq_id cur_view p
      then waits
      else if out_of_date m.seq_id cur_view p
      then done p []
      else if not (has_request m.digest p)
      then done p []
      else if ltb p.sequence_id m.seq_id
      then done p []
      else after_prepare_vote m (with_prepare_vote (ops.prepare m p.cur_chain) m p)

  unfoldable pub commit_request : ℕ → Commit → Node C → Outcome C
  unfolding insert lookup end_round
  commit_request now m p = end_round now [] (record p {
    cur_chain = ops.commit (is_main p) m (lookup m.digest p.request_pool) p.cur_chain;
    is_reply = insert m.digest true p.is_reply;
    sequence_id = u64 (p.sequence_id + 1);
  })

  unfoldable pub after_commit_vote : ℕ → Commit → Node C → Outcome C
  unfolding voters replied has_request ask_for_old commit_request
  after_commit_vote now m p =
      if leb (2 * p.malicious_nums + 1) (length (voters m.digest p.cnt_commit_confirm))
        && not (replied m.digest p)
      then if has_request m.digest p then commit_request now m p else ask_for_old now m p
      else done p []

  unfoldable pub handle_commit : ℕ → ℕ → Commit → Node C → Outcome C
  unfolding must_wait out_of_date set_2d_map after_commit_vote
  handle_commit now cur_view m p =
      if must_wait 3 m.seq_id cur_view p
      then waits
      else if out_of_date m.seq_id cur_view p
      then done p []
      else after_commit_vote now m (with_commit_vote m p)

module _ {C : Type 0} (ops : ExtraOp C) (digest : Request → Bytes) where
  -- One round of `Propose`, up to its last call; a free `sequenceLock` is taken.
  unfoldable pub propose : Node C → Outcome C
  unfolding put_request
  propose p =
      let (r, chain) = ops.propose p.cur_chain in
      let pp : PrePrepare = record { request_msg = r; digest = digest r; seq_id = p.sequence_id } in
      if not (is_main p)
      then done p []
      else if p.sequence_lock
      then waits
      else done
          (put_request (digest r) p.sequence_id r
            (record p { cur_chain = chain; sequence_lock = true }))
          (pre_prepares pp ∷ [])

  unfoldable pub handle_pre_prepare : ℕ → PrePrepare → Node C → Outcome C
  unfolding must_wait out_of_date put_request
  handle_pre_prepare cur_view m p =
      let (flag, chain) = ops.pre_prepare m p.cur_chain in
      let q =
        put_request (digest m.request_msg) m.seq_id m.request_msg
          (record p { cur_chain = chain }) in
      let pre : Prepare = record {
        digest = m.digest;
        seq_id = m.seq_id;
        sender_node = p.running_node;
      } in
      if must_wait 1 m.seq_id cur_view p
      then waits
      else if out_of_date m.seq_id cur_view p
      then done p []
      else if not (digest m.request_msg == m.digest)
      then done p []
      else if ltb p.sequence_id m.seq_id
      then done (put_request (digest m.request_msg) m.seq_id m.request_msg p) []
      else if flag
      then done (record q { pbft_stage = q.pbft_stage + 1 }) (prepares pre ∷ [])
      else done q []
