-- ===== src/Proposal/Recovery.antt =====
-- A compact proposal and what a replica makes of it.
use blbchain.Base.{
  ◌≡◌, refl, sym, ap, ◌∙◌, subst, inl, inr, true, Option, none, some, ◌>>=◌, List, [], ◌∷◌, Bytes,
  bytes_eq, ◌==◌, beq_refl, map, if◌then◌else◌, Bool-cases, All, All-map,
}
use blbchain.Core.Transaction.{Transaction}
use blbchain.Core.Block.{Block}
use blbchain.Pbft.Node.{block_request, PrePrepare}
use blbchain.Proposal.{
  Codec, OverheadParams, Bodies, CompactProposal, compact, with_content, cache_bodies, missing_keys,
  answer_missing, encode_proposal, collect_body, reconstruct,
}
use blbchain.Proposal.Cache.{
  Has, IsKeyed, cache_bodies-IsKeyed, cache_bodies-Has, cache_bodies-All,
  answer_missing-missing_keys,
}

module _ (codec : Codec) where
  -- No other body has the key of this transaction's, which is decoded to the transaction.
  abbrev pub IsOwn : Transaction → Type 0
  IsOwn tx =
      ((v : Bytes)
        → codec.body_key v ≡ codec.body_key (codec.encode_tx tx)
        → v ≡ codec.encode_tx tx)
      × (codec.decode_tx (codec.encode_tx tx) ≡ tx)

  abbrev pub key_of : Transaction → Bytes
  key_of tx = codec.body_key (codec.encode_tx tx)

  collect_body-map :
      (txs : List Transaction) (bodies : Bodies)
      → IsKeyed codec bodies
      → All IsOwn txs
      → All (Has bodies) (map key_of txs)
      → collect_body codec (map key_of txs) bodies ≡ some txs
  unfolding collect_body
  collect_body-map [] bodies keyed own have = refl
  collect_body-map (tx ∷ txs) bodies keyed (own, owns) ((v, ev), have) =
      let same : codec.decode_tx v ≡ tx = ap codec.decode_tx (own.0 v (keyed _ v ev)) ∙ own.1 in
      rw (ev, collect_body-map txs bodies keyed owns have, same) refl

  All-key_of :
      (txs : List Transaction) (bodies : Bodies)
      → All (λ b. Has bodies (codec.body_key b)) (map codec.encode_tx txs)
      → All (Has bodies) (map key_of txs)
  All-key_of [] bodies h = tt
  All-key_of (tx ∷ txs) bodies (h, hs) = (h, All-key_of txs bodies hs)

  -- The pre-prepare is a block's, in the encodings that the leader's `propose` makes.
  pub record Proposes (pp : PrePrepare) (b : Block) : Type 0 where
    pub is_block_request : pp.request_msg.request_type ≡ block_request
    pub content_is : pp.request_msg.content ≡ codec.encode_block b
    pub decode_block_is : codec.decode_block (codec.encode_block b) ≡ b
    pub decode_header_is : codec.decode_header (codec.encode_header b.header) ≡ b.header
    pub own : All IsOwn b.body
    pub digest_is : pp.digest ≡ codec.digest pp.request_msg

  abbrev pub compact_of : PrePrepare → Block → CompactProposal
  compact_of pp b = record {
    proposal = with_content [] pp;
    header = codec.encode_header b.header;
    hash = b.hash;
    keys = map key_of b.body;
  }

  encode_proposal-compact :
      (params : OverheadParams) (pp : PrePrepare) (b : Block) (bodies : Bodies)
      → params.enabled ≡ true
      → params.lightweight ≡ true
      → Proposes pp b
      → encode_proposal codec params pp bodies
        ≡ (compact (compact_of pp b), cache_bodies codec (map codec.encode_tx b.body) bodies)
  unfolding encode_proposal
  encode_proposal-compact params pp b bodies on light p =
      rw (on, light, p.is_block_request, p.content_is, p.decode_block_is) refl

  reconstruct-compact_of :
      (pp : PrePrepare) (b : Block) (bodies : Bodies)
      → Proposes pp b
      → IsKeyed codec bodies
      → All (Has bodies) (map key_of b.body)
      → reconstruct codec (compact_of pp b) bodies ≡ some pp
  unfolding reconstruct
  reconstruct-compact_of pp b bodies p keyed have =
      rw (collect_body-map b.body bodies keyed p.own have, p.decode_header_is, sym p.content_is)
        (rw (sym p.digest_is, beq_refl pp.digest) refl)

  -- Let a leader with lightweight proposals propose a block, where no other body has the key of one of
  -- the block's and the decoders undo the encoders. It sends a compact proposal and can answer for
  -- every key that a replica lacks; and with the answer cached, whatever the replica caches before
  -- and after it, the replica reconstructs the very pre-prepare that was proposed.
  pub reconstruct-encode_proposal :
      (params : OverheadParams) (pp : PrePrepare) (b : Block) (leader replica : Bodies)
      → params.enabled ≡ true
      → params.lightweight ≡ true
      → Proposes pp b
      → IsKeyed codec leader
      → IsKeyed codec replica
      → (cp : CompactProposal) × (leader' : Bodies) × (bs : List Bytes) × (encode_proposal codec
            params pp leader
          ≡ (compact cp, leader'))
        × (answer_missing (missing_keys cp.keys replica) leader' ≡ some bs)
        × ((before after : List Bytes)
            → reconstruct codec cp (
                cache_bodies codec after
                  (cache_bodies codec bs (cache_bodies codec before replica)))
              ≡ some pp)
  reconstruct-encode_proposal params pp b leader replica on light p lk rk =
      let leader' = cache_bodies codec (map codec.encode_tx b.body) leader in
      let (bs, e, all) =
        answer_missing-missing_keys codec (map key_of b.body) leader' replica
          (cache_bodies-IsKeyed codec _ leader lk)
          (All-key_of b.body leader'
            (cache_bodies-All codec (map codec.encode_tx b.body) leader)) in
      (
        compact_of pp b,
        leader',
        bs,
        encode_proposal-compact params pp b leader on light p,
        e,
        λ before after.
            reconstruct-compact_of pp b _ p
              (cache_bodies-IsKeyed codec after _
                (cache_bodies-IsKeyed codec bs _ (cache_bodies-IsKeyed codec before replica rk)))
              (All-map _ _ (λ k. cache_bodies-Has codec after k _) (map key_of b.body)
                (all (cache_bodies codec before replica)
                  (λ k. cache_bodies-Has codec before k replica))),
      )

  bind_some :
      {A B : Type 0} (o : Option A) (k : A → Option B) {b : B}
      → (o >>= k) ≡ some b
      → (a : A) × (o ≡ some a) × (k a ≡ some b)
  bind_some none k e = cc
  bind_some (some a) k e = (a, refl, e)

  checked_some :
      (p q : PrePrepare)
      → (if codec.digest p.request_msg == p.digest then some p else none) ≡ some q
      → (codec.digest p.request_msg ≡ p.digest) × (p ≡ q)
  checked_some p q e = elim (Bool-cases (codec.digest p.request_msg == p.digest)) [
    | inl t ↦
        ((bytes_eq.equals_iff _ _).0 t, some_inj (sym (ap (λ c. if c then some p else none) t) ∙ e))
    | inr f ↦ absurd (none≢some (sym (ap (λ c. if c then some p else none) f) ∙ e))
  ]
    where
      some_inj : {x y : PrePrepare} → some x ≡ some y → x ≡ y
      some_inj h = cc

      none≢some : {x : PrePrepare} → ¬ (none ≡ some x)
      none≢some h = cc

  -- Whatever bodies a replica has, a pre-prepare that it reconstructs has the digest of its own
  -- request, and the digest and the sequence number of the compact proposal.
  pub reconstruct-digest :
      (cp : CompactProposal) (bodies : Bodies) (pp : PrePrepare)
      → reconstruct codec cp bodies ≡ some pp
      → (codec.digest pp.request_msg ≡ pp.digest)
        × (pp.digest ≡ cp.proposal.digest)
        × (pp.seq_id ≡ cp.proposal.seq_id)
  unfolding reconstruct
  reconstruct-digest cp bodies pp e =
      let (body, eb, er) = bind_some (collect_body codec cp.keys bodies) _ e in
      let (ed, ep) = checked_some _ pp er in
      (
        subst (λ q. codec.digest q.request_msg ≡ q.digest) ep ed,
        sym (ap (λ q. q.digest) ep),
        sym (ap (λ q. q.seq_id) ep),
      )
