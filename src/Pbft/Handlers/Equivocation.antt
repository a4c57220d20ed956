-- ===== src/Pbft/Handlers/Equivocation.antt =====
-- A second pre-prepare of one round, as an equivocating main node sends it.
use blbchain.Base.{
  ℕ, ◌+◌, ◌≤◌, ◌≡◌, refl, ap, ◌∙◌, true, false, List, [], ◌∷◌, Bytes, bytes_eq, ◌==◌, beq_refl, ltb,
  arith,
}
use blbchain.Pbft.Node.{Request, PrePrepare, Node, ExtraOp, done, Sent, prepares}
use blbchain.Pbft.Handlers.{must_wait, out_of_date, put_request, handle_pre_prepare}

module _ {C : Type 0} (ops : ExtraOp C) (digest : Request → Bytes) where
  abbrev answer : PrePrepare → Node C → List Sent
  answer m p =
      prepares (record { digest = m.digest; seq_id = m.seq_id; sender_node = p.running_node }) ∷ []

  abbrev prepared : PrePrepare → Node C → Node C
  prepared m p =
      let q =
        put_request (digest m.request_msg) m.seq_id m.request_msg
          (record p { cur_chain = (ops.pre_prepare m p.cur_chain).1 }) in
      record q { pbft_stage = q.pbft_stage + 1 }

  handle_pre_prepare-prepared :
      (cur_view : ℕ) (m : PrePrepare) (p : Node C)
      → m.seq_id ≡ p.sequence_id
      → digest m.request_msg ≡ m.digest
      → 1 ≤ p.pbft_stage
      → cur_view ≡ p.view
      → (ops.pre_prepare m p.cur_chain).0 ≡ true
      → handle_pre_prepare ops digest cur_view m p ≡ done (prepared m p) (answer m p)
  unfolding handle_pre_prepare
  handle_pre_prepare-prepared cur_view m p seq good stage view ok =
      rw (no_wait, in_date, same, this_round, ok) refl
    where
      no_wait : must_wait 1 m.seq_id cur_view p ≡ false
      no_wait = unfold must_wait in ground arith

      in_date : out_of_date m.seq_id cur_view p ≡ false
      in_date = unfold out_of_date in ground arith

      same : (digest m.request_msg == m.digest) ≡ true
      same = ap (λ d. d == m.digest) good ∙ beq_refl m.digest

      this_round : ltb p.sequence_id m.seq_id ≡ false
      this_round = ground arith

  -- A node that has prepared a request prepares any second one of the same round as well, if the
  -- digest fits and the module accepts it: the handler keeps no note of what it has answered.
  pub handle_pre_prepare_twice :
      (cur_view : ℕ) (m m' : PrePrepare) (p : Node C)
      → m.seq_id ≡ p.sequence_id
      → m'.seq_id ≡ p.sequence_id
      → digest m.request_msg ≡ m.digest
      → digest m'.request_msg ≡ m'.digest
      → 1 ≤ p.pbft_stage
      → cur_view ≡ p.view
      → (ops.pre_prepare m p.cur_chain).0 ≡ true
      → (ops.pre_prepare m' (ops.pre_prepare m p.cur_chain).1).0 ≡ true
      → (q : Node C) × (r : Node C) × (handle_pre_prepare ops digest cur_view m p
          ≡ done q (answer m p))
        × (handle_pre_prepare ops digest cur_view m' q ≡ done r (answer m' p))
  unfolding put_request
  handle_pre_prepare_twice cur_view m m' p seq seq' good good' stage view ok ok' = (
    prepared m p,
    prepared m' (prepared m p),
    handle_pre_prepare-prepared cur_view m p seq good stage view ok,
    handle_pre_prepare-prepared cur_view m' (prepared m p) seq' good' (omega arith) view ok',
  )
