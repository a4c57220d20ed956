-- ===== src/Pbft/Rounds/Invariant.antt =====
-- The votes of a node that has run from its start.
use blbchain.Base.{
  ℕ, ◌+◌, ◌≡◌, refl, subst, Bool, true, false, List, [], ◌∷◌, Bytes, bytes_eq, some, Option-cases,
  inl, inr, if◌then◌else◌, nat_beq,
}
use mathlib.Core.Option.{some-injective}
use blbchain.Pbft.Votes.{Peer, voters}
use blbchain.Pbft.Node.{
  u64, Request, SendOldMessage, Node, ExtraOp, Outcome, waits, stuck, crash, done, new_pbft_node,
}
use blbchain.Pbft.Handlers.{swap_stage, is_main}
use blbchain.Pbft.Handlers.Invariant.{
  IsCounted, Inv, Ensures, Ensures-if, handle_prepare-Inv, handle_commit-Inv,
  handle_pre_prepare-Inv, propose-Inv,
}
use blbchain.Pbft.CatchUp.{
  request_at, take_old, resume, handle_request_old_seq, handle_send_old_seq,
}
use blbchain.Pbft.ViewChange.{view_change_propose, handle_view_change_msg, handle_new_view_msg}
use blbchain.Pbft.Rounds.{
  Event, proposes, swaps, pre_prepare, prepare, commit, request_old, send_old, times_out,
  view_change, new_view, handle_message, Reach, here, next, run, next_run,
}

new_pbft_node-Inv :
    {C : Type 0} (running : Peer) (chain : C) (number nodes now : ℕ)
    → Inv (new_pbft_node running chain number nodes now)
unfolding new_pbft_node voters
new_pbft_node-Inv running chain number nodes now = record {
  prepare_voters = λ d. tt;
  commit_voters = λ d. tt;
  quorum = λ d h. cc;
}

module _ {C : Type 0} (ops : ExtraOp C) (digest : Request → Bytes) where
  take_old-Inv :
      (rs : List Request) (seq : ℕ) (p : Node C) → Inv p → Inv (take_old ops digest rs seq p)
  unfolding take_old
  take_old-Inv [] seq p v = v
  take_old-Inv (r ∷ rs) seq p v = take_old-Inv rs _ _ v

  if-Inv : (b : Bool) (x y : Node C) → Inv x → Inv y → Inv (if b then x else y)
  if-Inv true x y v w = v
  if-Inv false x y v w = w

  resume-Inv : (p : Node C) → Inv p → Inv (resume ops digest p).0
  unfolding resume
  resume-Inv p v = elim (Option-cases (request_at p.sequence_id p)) [
    | inl e ↦ rw (e, resume) v
    | inr (r, e) ↦ rw (e, resume) v
  ]

  handle_send_old_seq-Inv :
      (m : SendOldMessage) (p : Node C) → Inv p → Ensures Inv (handle_send_old_seq ops digest m p)
  unfolding handle_send_old_seq
  handle_send_old_seq-Inv m p v =
      Ensures-if Inv (resume ops digest q).0.ask_for_lock _ _ (λ _. resume-Inv q start) (λ _. tt)
    where
      fetched : Node C
      fetched =
          take_old ops digest m.old_request m.seq_start_height
            (record p { cur_chain = ops.sequential m p.cur_chain })

      q : Node C
      q = record fetched { sequence_id = u64 (m.seq_end_height + 1) }

      start : Inv q
      start = take_old-Inv m.old_request m.seq_start_height _ v

  handle_message-Inv :
      (e : Event) (p : Node C) → Inv p → Ensures Inv (handle_message ops digest e p)
  unfolding handle_message swap_stage handle_request_old_seq view_change_propose
      handle_view_change_msg handle_new_view_msg
  handle_message-Inv proposes p v = propose-Inv ops digest p v
  handle_message-Inv swaps p v = if-Inv (nat_beq p.pbft_stage 1) _ _ v v
  handle_message-Inv (pre_prepare w m) p v = handle_pre_prepare-Inv ops digest w m p v
  handle_message-Inv (prepare w m) p v = handle_prepare-Inv ops w m p v
  handle_message-Inv (commit now w m) p v = handle_commit-Inv ops now w m p v
  handle_message-Inv (request_old m) p v = Ensures-if Inv (is_main p) _ _ (λ _. v) (λ _. v)
  handle_message-Inv (send_old m) p v = handle_send_old_seq-Inv m p v
  handle_message-Inv times_out p v = v
  handle_message-Inv (view_change m) p v = v
  handle_message-Inv (new_view now m) p v = if-Inv _ _ _ v v

  Reach-Inv : {p q : Node C} → Inv p → Reach ops digest p q → Inv q
  Reach-Inv v here = v
  Reach-Inv v (next e {out = out} reached returned) =
      subst (Ensures Inv) returned (handle_message-Inv e _ (Reach-Inv v reached))

  -- Whatever messages a node gets and in whatever order, the voters that it counts for a digest are
  -- distinct nodes, and it has sent its commit for a digest only with 2f + 1 of them prepared.
  pub Reach-IsCounted :
      (running : Peer) (chain : C) (number nodes now : ℕ) {p : Node C}
      → Reach ops digest (new_pbft_node running chain number nodes now) p
      → IsCounted p.malicious_nums p.cnt_prepare_confirm p.cnt_commit_confirm p.is_commit_broadcast
  Reach-IsCounted running chain number nodes now reached =
      Reach-Inv (new_pbft_node-Inv running chain number nodes now) reached

  -- What a run of events gives is reached.
  pub run-Reach :
      (es : List Event) (p q r : Node C)
      → Reach ops digest p q
      → run ops digest es q ≡ some r
      → Reach ops digest p r
  unfolding run
  run-Reach [] p q r reached e = subst (Reach ops digest p) (some-injective q r e) reached
  run-Reach (e ∷ es) p q r reached h =
      go (handle_message ops digest e q) refl (λ q' reached'. run-Reach es p q' r reached') h
    where
      go :
          (o : Outcome C)
          → handle_message ops digest e q ≡ o
          → ((q' : Node C)
              → Reach ops digest p q'
              → run ops digest es q' ≡ some r
              → Reach ops digest p r)
          → next_run o (λ q. run ops digest es q) ≡ some r
          → Reach ops digest p r
      go (done q' out) returned rest h = rest q' (next e reached returned) h
      go waits returned rest h = cc
      go stuck returned rest h = cc
      go crash returned rest h = cc
