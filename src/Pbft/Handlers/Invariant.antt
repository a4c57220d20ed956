-- ===== src/Pbft/Handlers/Invariant.antt =====
-- The invariant on the recorded votes, handler by handler.
use blbchain.Base.{
  ℕ, ◌+◌, ◌*◌, ◌≤◌, ◌≡◌, refl, sym, ap, ◌∙◌, inl, inr, Bool, true, false, not, ◌&&◌, List, [],
  Bytes, bytes_eq, ◌==◌, leb, ltb, leb→le, if◌then◌else◌, Bool-cases, Map, lookup, insert, or_zero,
  lookup-insert_self, lookup-insert_ne, length, arith,
}
use blbchain.Pbft.Votes.{
  Peer, Distinct, voters, add_voter, set_2d_map, add_voter-Distinct, length-add_voter,
}
use blbchain.Pbft.Node.{
  Request, PrePrepare, Prepare, Commit, Node, ExtraOp, Outcome, waits, stuck, crash, done,
}
use blbchain.Pbft.Handlers.{
  with_prepare_vote, with_commit_vote, flag_of, commit_broadcast, must_wait, out_of_date, is_main,
  has_request, replied, handle_pre_prepare, handle_prepare, handle_commit, propose,
  after_prepare_vote, after_commit_vote, commit_request, ask_for_old, end_round,
}

pub voters-set_2d_map :
    (d j : Bytes) (v : Peer) (m : Map Bytes (List Peer))
    → voters j (set_2d_map d v m) ≡ (if d == j then add_voter v (voters d m) else voters j m)
unfolding voters set_2d_map
voters-set_2d_map d j v m = elim (Bool-cases (d == j)) [
  | inl t ↦ rw t (
      rw (← (bytes_eq.equals_iff d j).0 t)
        (ap (λ o. or_zero o []) (lookup-insert_self d (add_voter v (voters d m)) m)))
  | inr f ↦ rw f (ap (λ o. or_zero o []) (lookup-insert_ne d j (add_voter v (voters d m)) m f))
]

-- The recorded voters are distinct nodes, and a digest whose commit was sent has 2f + 1 of them.
pub record IsCounted (f : ℕ) (prepare commit : Map Bytes (List Peer)) (sent : Map Bytes Bool)
    : Type 0 where
  pub prepare_voters : (d : Bytes) → Distinct (voters d prepare)
  pub commit_voters : (d : Bytes) → Distinct (voters d commit)
  pub quorum : (d : Bytes) → flag_of d sent ≡ true → 2 * f + 1 ≤ length (voters d prepare)

abbrev pub Inv : {C : Type 0} → Node C → Type 0
Inv p = IsCounted p.malicious_nums p.cnt_prepare_confirm p.cnt_commit_confirm p.is_commit_broadcast

-- What holds of the node when the handler returns.
abbrev pub Ensures : {C : Type 0} → (Node C → Type 0) → Outcome C → Type 0
Ensures P waits = Unit
Ensures P stuck = Unit
Ensures P crash = Unit
Ensures P (done p out) = P p

Distinct-set_2d_map :
    (d : Bytes) (v : Peer) (m : Map Bytes (List Peer))
    → ((j : Bytes) → Distinct (voters j m))
    → (j : Bytes) → Distinct (voters j (set_2d_map d v m))
Distinct-set_2d_map d v m h j = rw (voters-set_2d_map d j v m) (elim (Bool-cases (d == j)) [
  | inl t ↦ rw t (add_voter-Distinct v _ (h d))
  | inr f ↦ rw f (h j)
])

length-set_2d_map :
    (d j : Bytes) (v : Peer) (m : Map Bytes (List Peer))
    → length (voters j m) ≤ length (voters j (set_2d_map d v m))
length-set_2d_map d j v m = rw (voters-set_2d_map d j v m) (elim (Bool-cases (d == j)) [
  | inl t ↦ rw t (rw ((bytes_eq.equals_iff d j).0 t) (length-add_voter v (voters j m)))
  | inr f ↦ rw f (omega arith)
])

module _ {C : Type 0} where
  pub Ensures-if :
      (P : Node C → Type 0) (b : Bool) (x y : Outcome C)
      → (b ≡ true → Ensures P x)
      → (b ≡ false → Ensures P y)
      → Ensures P (if b then x else y)
  Ensures-if P true x y hx hy = hx refl
  Ensures-if P false x y hx hy = hy refl

  sent_quorum :
      (d j : Bytes) (p : Node C)
      → Inv p
      → 2 * p.malicious_nums + 1 ≤ length (voters j p.cnt_prepare_confirm)
      → or_zero (lookup d (insert j true p.is_commit_broadcast)) false ≡ true
      → 2 * p.malicious_nums + 1 ≤ length (voters d p.cnt_prepare_confirm)
  sent_quorum d j p v enough h = elim (Bool-cases (j == d)) [
    | inl t ↦ rw (← (bytes_eq.equals_iff j d).0 t) enough
    | inr f ↦
        v.quorum d
          (sym (ap (λ o. or_zero o false) (lookup-insert_ne j d true p.is_commit_broadcast f)) ∙ h)
  ]

  after_prepare_vote-Inv : (m : Prepare) (p : Node C) → Inv p → Ensures Inv (after_prepare_vote m p)
  unfolding after_prepare_vote commit_broadcast
  after_prepare_vote-Inv m p v =
      elim (Bool-cases
        (leb (2 * p.malicious_nums + 1) (length (voters m.digest p.cnt_prepare_confirm)))) [
          | inr few ↦ rw few v
          | inl enough ↦ elim (Bool-cases (commit_broadcast m.digest p)) [
            | inl sent ↦ rw (enough, sent) v
            | inr unsent ↦
                rw (enough, unsent)
                  (record {
                    prepare_voters = v.prepare_voters;
                    commit_voters = v.commit_voters;
                    quorum = λ d h. sent_quorum d m.digest p v (leb→le _ _ enough) h;
                  })
          ]
        ]

  vote-Inv : (m : Prepare) (c : C) (p : Node C) → Inv p → Inv (with_prepare_vote c m p)
  vote-Inv m c p v = record {
    prepare_voters =
        Distinct-set_2d_map m.digest m.sender_node p.cnt_prepare_confirm v.prepare_voters;
    commit_voters = v.commit_voters;
    quorum = λ d h.
        omega
          (arith, v.quorum d h, length-set_2d_map m.digest d m.sender_node p.cnt_prepare_confirm);
  }

  commit_vote-Inv : (m : Commit) (p : Node C) → Inv p → Inv (with_commit_vote m p)
  commit_vote-Inv m p v = record {
    prepare_voters = v.prepare_voters;
    commit_voters = Distinct-set_2d_map m.digest m.sender_node p.cnt_commit_confirm v.commit_voters;
    quorum = v.quorum;
  }

  after_commit_vote-Inv :
      (ops : ExtraOp C) (now : ℕ) (m : Commit) (p : Node C)
      → Inv p
      → Ensures Inv (after_commit_vote ops now m p)
  unfolding after_commit_vote commit_request ask_for_old end_round
  after_commit_vote-Inv ops now m p v =
      Ensures-if Inv (enough && not (replied m.digest p)) _ _
        (λ _.
          Ensures-if Inv (has_request m.digest p) _ _
            (λ _.
              Ensures-if Inv (is_main p) _ _
                (λ _. Ensures-if Inv p.sequence_lock _ _ (λ _. v) (λ _. tt)) (λ _. v))
            (λ _.
              Ensures-if Inv p.ask_for_lock _ _ (λ _. tt)
                (λ _.
                  Ensures-if Inv (is_main p) _ _
                    (λ _. Ensures-if Inv p.sequence_lock _ _ (λ _. v) (λ _. tt)) (λ _. v))))
        (λ _. v)
    where
      enough : Bool
      enough = leb (2 * p.malicious_nums + 1) (length (voters m.digest p.cnt_commit_confirm))

  -- A handler that does nothing but for the last branch of its guards.
  guarded-Inv :
      (p : Node C) (wait late : Bool) (o : Outcome C)
      → Inv p
      → Ensures Inv o
      → Ensures Inv (if wait then waits else if late then done p [] else o)
  guarded-Inv p true late o v h = tt
  guarded-Inv p false true o v h = v
  guarded-Inv p false false o v h = h

  pub handle_prepare-Inv :
      (ops : ExtraOp C) (cur_view : ℕ) (m : Prepare) (p : Node C)
      → Inv p
      → Ensures Inv (handle_prepare ops cur_view m p)
  unfolding handle_prepare
  handle_prepare-Inv ops cur_view m p v =
      guarded-Inv p (must_wait 2 m.seq_id cur_view p) (out_of_date m.seq_id cur_view p) _ v (
        Ensures-if Inv (not (has_request m.digest p)) _ _ (λ _. v)
          (λ _.
            Ensures-if Inv (ltb p.sequence_id m.seq_id) _ _ (λ _. v)
              (λ _.
                after_prepare_vote-Inv m (with_prepare_vote (ops.prepare m p.cur_chain) m p)
                  (vote-Inv m (ops.prepare m p.cur_chain) p v))))

  pub handle_commit-Inv :
      (ops : ExtraOp C) (now cur_view : ℕ) (m : Commit) (p : Node C)
      → Inv p
      → Ensures Inv (handle_commit ops now cur_view m p)
  unfolding handle_commit
  handle_commit-Inv ops now cur_view m p v =
      guarded-Inv p (must_wait 3 m.seq_id cur_view p) (out_of_date m.seq_id cur_view p) _ v
        (after_commit_vote-Inv ops now m (with_commit_vote m p) (commit_vote-Inv m p v))

module _ {C : Type 0} (ops : ExtraOp C) (digest : Request → Bytes) where
  pub handle_pre_prepare-Inv :
      (cur_view : ℕ) (m : PrePrepare) (p : Node C)
      → Inv p
      → Ensures Inv (handle_pre_prepare ops digest cur_view m p)
  unfolding handle_pre_prepare
  handle_pre_prepare-Inv cur_view m p v =
      guarded-Inv p (must_wait 1 m.seq_id cur_view p) (out_of_date m.seq_id cur_view p) _ v (
        Ensures-if Inv (not (digest m.request_msg == m.digest)) _ _ (λ _. v)
          (λ _.
            Ensures-if Inv (ltb p.sequence_id m.seq_id) _ _ (λ _. v)
              (λ _. Ensures-if Inv (ops.pre_prepare m p.cur_chain).0 _ _ (λ _. v) (λ _. v))))

  pub propose-Inv : (p : Node C) → Inv p → Ensures Inv (propose ops digest p)
  unfolding propose
  propose-Inv p v =
      Ensures-if Inv (not (is_main p)) _ _ (λ _. v)
        (λ _. Ensures-if Inv p.sequence_lock _ _ (λ _. tt) (λ _. v))
