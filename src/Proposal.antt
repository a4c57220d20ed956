-- ===== src/Proposal.antt =====
-- consensus_shard/pbft_all/overhead.go: lightweight proposals, which carry the keys of a block's
-- transactions in place of the transactions. A replica asks the leader for the bodies that it has not
-- cached. `none` is where the code panics; sending and the experiment's records are left out.
pub mod Cache
pub mod Recovery
mod Examples
use blbchain.Base.{
  ℕ, Bool, true, false, not, ◌&&◌, ◌||◌, Option, none, some, ◌>>=◌, List, [], ◌∷◌, ◌++◌, Bytes,
  bytes_eq, ◌==◌, Map, lookup, insert, is_some, if◌then◌else◌, map, length, nat_beq,
}
use blbchain.Core.Transaction.{Transaction}
use blbchain.Core.Block.{Block, BlockHeader}
use blbchain.Pbft.Node.{
  Request, RequestType, block_request, partition_req, other_request, PrePrepare,
}

-- What the code takes from libraries: SHA-256 of a body in hexadecimal, `getDigest`, and the encodings.
pub record Codec : Type 0 where
  pub body_key : Bytes → Bytes
  pub digest : Request → Bytes
  pub encode_tx : Transaction → Bytes
  pub decode_tx : Bytes → Transaction
  pub encode_header : BlockHeader → Bytes
  pub decode_header : Bytes → BlockHeader
  pub encode_block : Block → Bytes
  pub decode_block : Bytes → Block

-- `params.Overhead`.
pub record OverheadParams : Type 0 where
  pub enabled : Bool
  pub lightweight : Bool

abbrev pub Bodies : Type 0
Bodies = Map Bytes Bytes

pub record CompactProposal : Type 0 where
  pub proposal : PrePrepare
  pub header : Bytes
  pub hash : Bytes
  pub keys : List Bytes

pub data Encoded : Type 0 where
  compact : CompactProposal → Encoded
  full : PrePrepare → Encoded

abbrev pub is_block : RequestType → Bool
is_block block_request = true
is_block partition_req = false
is_block other_request = false

abbrev pub with_content : Bytes → PrePrepare → PrePrepare
with_content content pp = record pp { request_msg = record (pp.request_msg) { content = content } }

-- The loop that looks for the keys with no body.
unfoldable pub missing_keys : List Bytes → Bodies → List Bytes
unfolding lookup
missing_keys [] bodies = []
missing_keys (k ∷ ks) bodies =
    let rest = missing_keys ks bodies in if is_some (lookup k bodies) then rest else k ∷ rest

-- The leader's answer; it panics where it lacks a body.
unfoldable pub answer_missing : List Bytes → Bodies → Option (List Bytes)
unfolding lookup
answer_missing [] bodies = some []
answer_missing (k ∷ ks) bodies = do
  v ← lookup k bodies
  rest ← answer_missing ks bodies
  some (v ∷ rest)

module _ (codec : Codec) where
  unfoldable pub cache_bodies : List Bytes → Bodies → Bodies
  unfolding insert
  cache_bodies [] bodies = bodies
  cache_bodies (b ∷ bs) bodies = cache_bodies bs (insert (codec.body_key b) b bodies)

  -- The bodies that go to the stream, if any.
  unfoldable pub stream_transactions :
      OverheadParams → List Transaction → Bodies → Option (List Bytes) × Bodies
  unfolding cache_bodies
  stream_transactions params txs bodies =
      if not params.enabled || not params.lightweight || nat_beq (length txs) 0
      then (none, bodies)
      else (some (map codec.encode_tx txs), cache_bodies (map codec.encode_tx txs) bodies)

  unfoldable pub encode_proposal : OverheadParams → PrePrepare → Bodies → Encoded × Bodies
  unfolding cache_bodies
  encode_proposal params pp bodies =
      let b = codec.decode_block pp.request_msg.content in
      let cp : CompactProposal = record {
        proposal = with_content [] pp;
        header = codec.encode_header b.header;
        hash = b.hash;
        keys = map (λ tx. codec.body_key (codec.encode_tx tx)) b.body;
      } in
      if params.enabled && (params.lightweight && is_block pp.request_msg.request_type)
      then (compact cp, cache_bodies (map codec.encode_tx b.body) bodies)
      else (full pp, bodies)

  -- The loop that waits for the bodies: `bodies` is the cache when the last one is read, from which
  -- nothing is ever removed; a body that is not there in time is a panic.
  unfoldable pub collect_body : List Bytes → Bodies → Option (List Transaction)
  unfolding lookup
  collect_body [] bodies = some []
  collect_body (k ∷ ks) bodies = do
    encoded ← lookup k bodies
    rest ← collect_body ks bodies
    some (codec.decode_tx encoded ∷ rest)

  -- The end of `handleCompactProposal`: the pre-prepare that is handled.
  unfoldable pub reconstruct : CompactProposal → Bodies → Option PrePrepare
  unfolding collect_body
  reconstruct cp bodies = do
    body ← collect_body cp.keys bodies
    let b : Block = record { header = codec.decode_header cp.header; body = body; hash = cp.hash }
    let pp = with_content (codec.encode_block b) cp.proposal
    if codec.digest pp.request_msg == pp.digest then some pp else none
