-- ===== src/Proposal/Examples.antt =====
-- A leader that proposes a block of two transactions to a replica that has the body of the first.
use blbchain.Base.{ℕ, ◌≡◌, refl, true, [], ◌∷◌, List, some, Bytes, bytes_eq, map, lookup, insert}
use blbchain.Core.Transaction.{Transaction, new_transaction}
use blbchain.Core.Block.{Block, BlockHeader}
use blbchain.Pbft.Node.{block_request, PrePrepare}
use blbchain.Proposal.{
  Codec, OverheadParams, Bodies, CompactProposal, compact, cache_bodies, encode_proposal,
  missing_keys, answer_missing, reconstruct, collect_body,
}
use blbchain.Proposal.Cache.{IsKeyed, cache_bodies-IsKeyed}
use blbchain.Proposal.Recovery.{Proposes, compact_of, reconstruct-encode_proposal}

abbrev tx_of : ℕ → Transaction
tx_of v = new_transaction (λ tx. []) "a" "b" v 0 0

abbrev header_of : ℕ → BlockHeader
header_of n = record {
  parent_block_hash = [];
  state_root = [];
  tx_root = [];
  bloom = [];
  number = n;
  time = 0;
  miner = 0;
}

abbrev value_of : Bytes → ℕ
value_of [] = 0
value_of (v ∷ vs) = v

abbrev values_of : List Transaction → Bytes
values_of [] = []
values_of (tx ∷ txs) = tx.value ∷ values_of txs

abbrev block_of : Bytes → Block
block_of [] = record { header = header_of 0; body = []; hash = [] }
block_of (n ∷ vs) = record { header = header_of n; body = map tx_of vs; hash = [] }

abbrev codec : Codec
codec = record {
  body_key = λ b. 1 ∷ b;
  digest = λ r. r.content;
  encode_tx = λ tx. tx.value ∷ [];
  decode_tx = λ b. tx_of (value_of b);
  encode_header = λ h. h.number ∷ [];
  decode_header = λ b. header_of (value_of b);
  encode_block = λ b. b.header.number ∷ values_of b.body;
  decode_block = block_of;
}

abbrev block : Block
block = block_of (3 ∷ 10 ∷ 20 ∷ [])

abbrev pre_prepare : PrePrepare
pre_prepare = record {
  request_msg = record { request_type = block_request; content = 3 ∷ 10 ∷ 20 ∷ []; req_time = 0 };
  digest = 3 ∷ 10 ∷ 20 ∷ [];
  seq_id = 5;
}

abbrev lightweight : OverheadParams
lightweight = record { enabled = true; lightweight = true }

abbrev known : Bodies
known = (1 ∷ 10 ∷ [], 10 ∷ []) ∷ []

nothing-IsKeyed : IsKeyed codec []
unfolding lookup
nothing-IsKeyed k v e = cc

known-IsKeyed : IsKeyed codec known
unfolding cache_bodies insert
known-IsKeyed = cache_bodies-IsKeyed codec ((10 ∷ []) ∷ []) [] nothing-IsKeyed

key_inj : {x y : Bytes} → 1 ∷ x ≡ 1 ∷ y → x ≡ y
key_inj e = cc

pre_prepare-Proposes : Proposes codec pre_prepare block
unfolding new_transaction
pre_prepare-Proposes = record {
  is_block_request = refl;
  content_is = refl;
  decode_block_is = refl;
  decode_header_is = refl;
  own = ((λ v e. key_inj e, refl), ((λ v e. key_inj e, refl), tt));
  digest_is = refl;
}

reconstruct-encode_proposal_example :
    (cp : CompactProposal) × (leader : Bodies) × (bs : List Bytes) × (encode_proposal codec
        lightweight pre_prepare []
      ≡ (compact cp, leader))
    × (answer_missing (missing_keys cp.keys known) leader ≡ some bs)
    × ((before after : List Bytes)
        → reconstruct codec cp
            (cache_bodies codec after (cache_bodies codec bs (cache_bodies codec before known)))
          ≡ some pre_prepare)
reconstruct-encode_proposal_example =
    reconstruct-encode_proposal codec lightweight pre_prepare block [] known refl refl
      pre_prepare-Proposes nothing-IsKeyed known-IsKeyed

one_missing : missing_keys ((1 ∷ 10 ∷ []) ∷ (1 ∷ 20 ∷ []) ∷ []) known ≡ (1 ∷ 20 ∷ []) ∷ []
unfolding missing_keys lookup
one_missing = refl

all_known :
    reconstruct codec
      (compact_of codec pre_prepare block)
      (cache_bodies codec ((20 ∷ []) ∷ []) known)
    ≡ some pre_prepare
unfolding reconstruct collect_body cache_bodies insert lookup new_transaction
all_known = refl
