-- ===== src/Pbft/Handlers/Effects.antt =====
-- What a handler's run does to the node, branch by branch.
use blbchain.Base.{
  ℕ, ◌+◌, ◌*◌, ◌≤◌, ◌<◌, ◌≡◌, refl, ap, subst, ◌⊎◌, inl, inr, Bool, true, false, not, ◌&&◌, List,
  [], Bytes, bytes_eq, leb, Map, lookup, insert, or_zero, lookup-insert_self, length, arith,
}
use blbchain.Pbft.Votes.{Peer, voters, set_2d_map}
use blbchain.Pbft.Node.{u64, Request, PrePrepare, Prepare, Commit, Node, ExtraOp, done, Sent}
use blbchain.Pbft.Handlers.Invariant.{Ensures, Ensures-if}
use blbchain.Pbft.Handlers.{
  must_wait, out_of_date, is_main, has_request, replied, with_commit_vote, handle_pre_prepare,
  handle_prepare, handle_commit, after_commit_vote, commit_request, ask_for_old, end_round,
}

module _ {C : Type 0} (ops : ExtraOp C) (digest : Request → Bytes) where
  -- A message of a past round changes nothing and is answered by nothing, in whatever stage and view
  -- it comes.
  pub past_round_ignored :
      (now cur_view : ℕ) (m : PrePrepare) (r : Prepare) (c : Commit) (p : Node C)
      → m.seq_id < p.sequence_id
      → r.seq_id < p.sequence_id
      → c.seq_id < p.sequence_id
      → (handle_pre_prepare ops digest cur_view m p ≡ done p [])
        × (handle_prepare ops cur_view r p ≡ done p [])
        × (handle_commit ops now cur_view c p ≡ done p [])
  unfolding handle_pre_prepare handle_prepare handle_commit
  past_round_ignored now cur_view m r c p hm hr hc = (
    rw (late-must_wait 1 m.seq_id cur_view p hm, late-out_of_date m.seq_id cur_view p hm) refl,
    rw (late-must_wait 2 r.seq_id cur_view p hr, late-out_of_date r.seq_id cur_view p hr) refl,
    rw (late-must_wait 3 c.seq_id cur_view p hc, late-out_of_date c.seq_id cur_view p hc) refl,
  )
    where
      late-must_wait :
          (stage seq cur_view : ℕ) (p : Node C)
          → seq < p.sequence_id
          → must_wait stage seq cur_view p ≡ false
      late-must_wait stage seq cur_view p h = unfold must_wait in ground arith

      late-out_of_date :
          (seq cur_view : ℕ) (p : Node C) → seq < p.sequence_id → out_of_date seq cur_view p ≡ true
      late-out_of_date seq cur_view p h = unfold out_of_date in ground arith

-- What a node is after the round of a commit has ended with its request carried out.
pub record Ended {C : Type 0} (ops : ExtraOp C) (m : Commit) (p q : Node C) : Type 0 where
  pub counted : 2 * p.malicious_nums + 1 ≤ length (voters m.digest q.cnt_commit_confirm)
  pub fresh : replied m.digest p ≡ false
  pub marked : replied m.digest q ≡ true
  pub known : has_request m.digest p ≡ true
  pub carried_out :
      q.cur_chain ≡ ops.commit (is_main p) m (lookup m.digest p.request_pool) p.cur_chain
  pub advanced : q.sequence_id ≡ u64 (p.sequence_id + 1)
  pub stage : q.pbft_stage ≡ 1

-- The state is left as it was, or the round has ended.
abbrev pub Commits : {C : Type 0} → ExtraOp C → Commit → Node C → Node C → Type 0
Commits ops m p q =
    ((q.cur_chain ≡ p.cur_chain) × (q.sequence_id ≡ p.sequence_id)) ⊎ Ended ops m p q

module _ {C : Type 0} (ops : ExtraOp C) where
  -- Of the ended node, only the fields of `Ended` matter.
  ends :
      (m : Commit) (p q : Node C)
      → (leb (2 * p.malicious_nums + 1) (length (voters m.digest q.cnt_commit_confirm))
          && not (replied m.digest p))
        ≡ true
      → has_request m.digest p ≡ true
      → q.is_reply ≡ insert m.digest true p.is_reply
      → q.cur_chain ≡ ops.commit (is_main p) m (lookup m.digest p.request_pool) p.cur_chain
      → q.sequence_id ≡ u64 (p.sequence_id + 1)
      → q.pbft_stage ≡ 1
      → Ended ops m p q
  ends m p q ready known reply chain seq stage = record {
    counted = ground arith;
    fresh = ground arith;
    marked =
        unfold replied in
        (rw reply (ap (λ o. or_zero o false) (lookup-insert_self m.digest true p.is_reply)));
    known = known;
    carried_out = chain;
    advanced = seq;
    stage = stage;
  }

  after_commit_vote-Commits :
      (now : ℕ) (m : Commit) (p : Node C)
      → Ensures (Commits ops m p) (after_commit_vote ops now m (with_commit_vote m p))
  unfolding after_commit_vote commit_request ask_for_old end_round
  after_commit_vote-Commits now m p =
      Ensures-if (Commits ops m p) (enough && not (replied m.digest p)) _ _
        (λ ready.
          Ensures-if (Commits ops m p) (has_request m.digest p) _ _
            (λ known.
              Ensures-if (Commits ops m p) (is_main p) _ _
                (λ _.
                  Ensures-if (Commits ops m p) p.sequence_lock _ _
                    (λ _. inr (ends m p _ ready known refl refl refl refl)) (λ _. tt))
                (λ _. inr (ends m p _ ready known refl refl refl refl)))
            (λ _.
              Ensures-if (Commits ops m p) p.ask_for_lock _ _ (λ _. tt)
                (λ _.
                  Ensures-if (Commits ops m p) (is_main p) _ _
                    (λ _.
                      Ensures-if (Commits ops m p) p.sequence_lock _ _ (λ _. inl (refl, refl))
                        (λ _. tt))
                    (λ _. inl (refl, refl)))))
        (λ _. inl (refl, refl))
    where
      cnt : Map Bytes (List Peer)
      cnt = set_2d_map m.digest m.sender_node p.cnt_commit_confirm

      enough : Bool
      enough = leb (2 * p.malicious_nums + 1) (length (voters m.digest cnt))

  -- A commit's handler either leaves the chain and the sequence number as they were, or it carries
  -- the digest's request out once: with 2f + 1 commits counted, the request at hand and not carried
  -- out before; then the sequence number goes up by one and the digest is marked.
  pub handle_commit-Ended :
      (now cur_view : ℕ) (m : Commit) (p q : Node C) (out : List Sent)
      → handle_commit ops now cur_view m p ≡ done q out
      → ((q.cur_chain ≡ p.cur_chain) × (q.sequence_id ≡ p.sequence_id)) ⊎ Ended ops m p q
  unfolding handle_commit
  handle_commit-Ended now cur_view m p q out h = subst (Ensures (Commits ops m p)) h (
      Ensures-if (Commits ops m p) (must_wait 3 m.seq_id cur_view p) _ _ (λ _. tt)
        (λ _.
          Ensures-if (Commits ops m p) (out_of_date m.seq_id cur_view p) _ _ (λ _. inl (refl, refl))
            (λ _. after_commit_vote-Commits now m p)))
