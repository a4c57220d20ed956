-- ===== src/Pbft/CatchUp.antt =====
-- `handleRequestOldSeq` and `handleSendOldSeq` of consensus_shard/pbft_all/messageHandle.go: a node
-- that is behind gets the requests that it lacks from the main node. Each handler is taken as one step, although the
-- code does not hold `pbftLock` in it.
pub mod Answers
use blbchain.Base.{
  ℕ, zero, suc, ◌+◌, ◌-◌, ◌≤◌, ◌<◌, ◌≡◌, refl, ap, inl, inr, Bool, true, false, not, List, [], ◌∷◌,
  Option, none, some, Bytes, bytes_eq, nat_eq, Option-cases, if◌then◌else◌, Map, lookup, insert,
  length, get_elem?, arith,
}
use blbchain.Pbft.Node.{
  u64, Request, PrePrepare, Prepare, RequestOldMessage, SendOldMessage, Node, ExtraOp, Sent,
  prepares, answers, Outcome, crash, done,
}
use blbchain.Pbft.Handlers.{is_main, put_request}

module _ {C : Type 0} where
  -- The request at a height, where both maps have it.
  unfoldable pub request_at : ℕ → Node C → Option Request
  unfolding lookup
  request_at height p = elim (lookup height p.height2digest) [
    | none ↦ none
    | some d ↦ lookup d p.request_pool
  ]

  -- The loop of `handleRequestOldSeq`, over `n` heights; it stops at the first that is not known.
  unfoldable pub old_requests : ℕ → ℕ → Node C → List Request
  unfolding request_at
  old_requests zero height p = []
  old_requests (suc n) height p =
      let rest = old_requests n (height + 1) p in
      elim (request_at height p) [ none ↦ [] | some r ↦ r ∷ rest ]

module _ {C : Type 0} (ops : ExtraOp C) (digest : Request → Bytes) where
  -- The heights asked for end below 2 ^ 64 - 1, after which the source's loop variable would start again at 0.
  unfoldable pub handle_request_old_seq : RequestOldMessage → Node C → Outcome C
  unfolding old_requests
  handle_request_old_seq m p =
      let sb : SendOldMessage = record {
        seq_start_height = m.seq_start_height;
        seq_end_height = m.seq_end_height;
        old_request = old_requests (m.seq_end_height + 1 - m.seq_start_height) m.seq_start_height p;
        sender_node = p.running_node;
      } in
      if is_main p
      then done (record p { cur_chain = ops.request_old m p.cur_chain }) (answers sb ∷ [])
      else done p []

  -- The loop of `handleSendOldSeq`; `seq` is `uint64(idx) + beginSeq`.
  unfoldable pub take_old : List Request → ℕ → Node C → Node C
  unfolding put_request insert
  take_old [] seq p = p
  take_old (r ∷ rs) seq p =
      let q = put_request (digest r) seq r p in
      take_old rs (u64 (seq + 1)) (record q { is_reply = insert (digest r) true q.is_reply })

  -- The pre-prepare of a request that waits at the new sequence number.
  unfoldable pub resume : Node C → Node C × List Sent
  unfolding request_at
  resume p = elim (request_at p.sequence_id p) [
    | none ↦ (p, [])
    | some r ↦
        let pp : PrePrepare = record {
          request_msg = r;
          digest = digest r;
          seq_id = p.sequence_id;
        } in
        let pre : Prepare = record {
          digest = digest r;
          seq_id = p.sequence_id;
          sender_node = p.running_node;
        } in
        let (flag, chain) = ops.pre_prepare pp p.cur_chain in
        (record p { cur_chain = chain }, if flag then prepares pre ∷ [] else [])
  ]

  unfoldable pub handle_send_old_seq : SendOldMessage → Node C → Outcome C
  unfolding take_old resume
  handle_send_old_seq m p =
      let q =
        take_old m.old_request m.seq_start_height
          (record p { cur_chain = ops.sequential m p.cur_chain }) in
      let (r, out) = resume (record q { sequence_id = u64 (m.seq_end_height + 1) }) in
      if r.ask_for_lock then done (record r { ask_for_lock = false }) out else crash
