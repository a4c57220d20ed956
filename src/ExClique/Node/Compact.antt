-- ===== src/ExClique/Node/Compact.antt =====
-- A block that comes as a compact block.
use blbchain.Base.{
  ℕ, ◌≡◌, sym, ap, ap₂, ◌∙◌, inl, inr, true, not, some, List, [], ◌∷◌, ◌++◌, append_assoc,
  append-nil, Bytes, map, filterb, Bool-cases,
}
use blbchain.Core.Transaction.{Transaction}
use blbchain.Core.Block.{Block}
use blbchain.Chain.State.{Library}
use blbchain.Chain.Blocks.{store, has_trie}
use blbchain.ExClique.Filter.{CountingBloomFilter}
use blbchain.ExClique.Node.{
  ExCliqueNode, likely_known, classify, compact_block_for, add_block, handle_compact_block,
  verify_block,
}
use blbchain.ExClique.Node.Blocks.{add_block-store}

module _ (sum64 : Bytes → ℕ) where
  classify-filterb :
      (cbf : CountingBloomFilter) (txs : List Transaction) (hashes : List Bytes)
      (missing : List Transaction)
      → classify sum64 cbf txs hashes missing ≡ (
        hashes ++ map (λ tx. tx.tx_hash) (filterb (likely_known sum64 cbf) txs),
        missing ++ filterb (λ tx. not (likely_known sum64 cbf tx)) txs,
      )
  unfolding classify
  classify-filterb cbf [] hashes missing =
      ap₂ (λ (a : List Bytes) (b : List Transaction). (a, b)) (sym (append-nil hashes))
        (sym (append-nil missing))
  classify-filterb cbf (tx ∷ txs) hashes missing = elim (Bool-cases (likely_known sum64 cbf tx)) [
    | inl t ↦ rw t (
        classify-filterb cbf txs (hashes ++ tx.tx_hash ∷ []) missing
        ∙ ap
            (λ (a : List Bytes).
              (a, missing ++ filterb (λ tx. not (likely_known sum64 cbf tx)) txs))
            (append_assoc hashes (tx.tx_hash ∷ []) _))
    | inr f ↦ rw f (
        classify-filterb cbf txs hashes (missing ++ tx ∷ [])
        ∙ ap
            (λ (b : List Transaction).
              (hashes ++ map (λ tx. tx.tx_hash) (filterb (likely_known sum64 cbf) txs), b))
            (append_assoc missing (tx ∷ []) _))
  ]

module _ (sum64 : Bytes → ℕ) (lib : Library) where
  -- A node that receives a block as a compact block, fitting and with a root that opens, stores the
  -- header and the hash with only those transactions that the sender's filter does not make likely to
  -- be known: the others, sent as hashes, are lost to it.
  pub handle_compact_block-filterb :
      (took : ℕ) (b : Block) (sender receiver : ExCliqueNode)
      → b.hash ≡ lib.hash_header b.header
      → verify_block b receiver ≡ true
      → has_trie lib b.header.state_root receiver.cur_chain ≡ true
      → (receiver' : ExCliqueNode) × (handle_compact_block sum64 lib took
            (compact_block_for sum64 b sender)
            receiver
          ≡ some receiver')
        × (receiver'.cur_chain
            ≡ store
                (record b { body = filterb (λ tx. not (likely_known sum64 sender.cbf tx)) b.body })
                receiver.cur_chain)
  unfolding handle_compact_block compact_block_for verify_block
  handle_compact_block-filterb took b sender receiver hashed fits known =
      let missing = filterb (λ tx. not (likely_known sum64 sender.cbf tx)) b.body in
      let received : Block = record b { body = missing; hash = lib.hash_header b.header } in
      let (receiver', went, chain, pool, blocks, forks) =
        add_block-store sum64 lib took received receiver fits known in
      (
        receiver',
        ap (λ txs. add_block sum64 lib took (record received { body = txs }) receiver)
              (ap (λ (r : List Bytes × List Transaction). r.1)
                (classify-filterb sum64 sender.cbf b.body [] []))
            ∙ went,
        chain
            ∙ ap (λ h. store (record b { body = missing; hash = h }) receiver.cur_chain)
                (sym hashed),
      )
