-- ===== src/Storage/Reads.antt =====
-- What is read after a block is added.
use blbchain.Base.{◌≡◌, refl, true, false, some, Bytes, bytes_eq, ◌==◌}
use blbchain.Core.Block.{Block}
use blbchain.Storage.{
  Buckets, BlockCodec, Storage, only_newest_block, add_block, get_block_header, get_block,
  get_newest_block_hash,
}

module _ {B : Type 0} (ops : Buckets B) (codec : BlockCodec) where
  -- Where the database can store a block, its header and its hash, and the decoders undo the encoders, a block
  -- is added without a panic. Then the block and its header are read at its hash, its hash is the
  -- newest one, and what is read at every other hash is as it was.
  pub add_block-reads :
      (b : Block) (s : Storage B)
      → codec.decode_block (codec.encode_block b) ≡ b
      → codec.decode_header (codec.encode_header b.header) ≡ b.header
      → ops.fits b.hash (codec.encode_block b) ≡ true
      → ops.fits b.hash (codec.encode_header b.header) ≡ true
      → ops.fits only_newest_block b.hash ≡ true
      → (s' : Storage B) × (add_block ops codec b s ≡ some s')
        × (get_block ops codec b.hash s' ≡ some b)
        × (get_block_header ops codec b.hash s' ≡ some b.header)
        × (get_newest_block_hash ops codec s' ≡ some b.hash)
        × ((hash : Bytes)
            → (b.hash == hash) ≡ false
            → (get_block ops codec hash s' ≡ get_block ops codec hash s)
              × (get_block_header ops codec hash s' ≡ get_block_header ops codec hash s))
  unfolding add_block get_block get_block_header get_newest_block_hash
  add_block-reads b s eb eh fb fh fn =
      let (blocks, pb) = ops.put_fits b.hash (codec.encode_block b) s.block_bucket fb in
      let (headers, ph) =
        ops.put_fits b.hash (codec.encode_header b.header) s.block_header_bucket fh in
      let (newest, pn) = ops.put_fits only_newest_block b.hash s.newest_block_hash_bucket fn in
      (
        record {
          block_bucket = blocks;
          block_header_bucket = headers;
          newest_block_hash_bucket = newest;
        },
        rw (pb, ph, pn) refl,
        rw (ops.get_same _ _ _ _ pb, eb) refl,
        rw (ops.get_same _ _ _ _ ph, eh) refl,
        ops.get_same _ _ _ _ pn,
        λ hash other. (
          rw (ops.get_other _ hash _ _ _ pb other) refl,
          rw (ops.get_other _ hash _ _ _ ph other) refl,
        ),
      )
