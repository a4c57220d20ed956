-- ===== src/Storage.antt =====
-- storage/storage.go: the blocks, their headers and the newest block's hash, in three buckets of the
-- database bolt, of which the interface `Buckets` takes the documented behaviour. `none` as a result of
-- a write is where the code panics, and as a result of a read the code's error.
pub mod Reads
mod Examples
use blbchain.Base.{
  ℕ, ◌≡◌, Bool, true, false, Option, none, some, ◌>>=◌, List, [], ◌∷◌, Bytes, bytes_eq, ◌==◌,
}
use blbchain.Core.Block.{Block, BlockHeader}

-- `Put` and `Get` of a bucket: a write fails where the key or the value cannot be stored, and otherwise
-- changes what is read at its key only.
pub record Buckets (B : Type 0) : Type 0 where
  pub fits : Bytes → Bytes → Bool
  pub put : Bytes → Bytes → B → Option B
  pub get : Bytes → B → Option Bytes
  pub put_fits : (k v : Bytes) (b : B) → fits k v ≡ true → (b' : B) × (put k v b ≡ some b')
  pub get_same : (k v : Bytes) (b b' : B) → put k v b ≡ some b' → get k b' ≡ some v
  pub get_other :
      (k j v : Bytes) (b b' : B) → put k v b ≡ some b' → (k == j) ≡ false → get j b' ≡ get j b

-- The encodings of a block and a header, which a library makes.
pub record BlockCodec : Type 0 where
  pub encode_block : Block → Bytes
  pub decode_block : Bytes → Block
  pub encode_header : BlockHeader → Bytes
  pub decode_header : Bytes → BlockHeader

pub record Storage (B : Type 0) : Type 0 where
  pub block_bucket : B
  pub block_header_bucket : B
  pub newest_block_hash_bucket : B

-- "OnlyNewestBlock", the only key of its bucket.
abbrev pub only_newest_block : Bytes
only_newest_block =
    79 ∷ 110 ∷ 108 ∷ 121 ∷ 78 ∷ 101 ∷ 119 ∷ 101 ∷ 115 ∷ 116 ∷ 66 ∷ 108 ∷ 111 ∷ 99 ∷ 107 ∷ []

module _ {B : Type 0} (ops : Buckets B) (codec : BlockCodec) where
  unfoldable pub update_newest_block : Bytes → Storage B → Option (Storage B)
  update_newest_block hash s = do
    bucket ← ops.put only_newest_block hash s.newest_block_hash_bucket
    some (record s { newest_block_hash_bucket = bucket })

  unfoldable pub add_block_header : Bytes → BlockHeader → Storage B → Option (Storage B)
  add_block_header hash bh s = do
    bucket ← ops.put hash (codec.encode_header bh) s.block_header_bucket
    some (record s { block_header_bucket = bucket })

  unfoldable pub add_block : Block → Storage B → Option (Storage B)
  unfolding add_block_header update_newest_block
  add_block b s = do
    bucket ← ops.put b.hash (codec.encode_block b) s.block_bucket
    s' ← add_block_header b.hash b.header (record s { block_bucket = bucket })
    update_newest_block b.hash s'

  unfoldable pub get_block_header : Bytes → Storage B → Option BlockHeader
  get_block_header hash s = do
    encoded ← ops.get hash s.block_header_bucket
    some (codec.decode_header encoded)

  unfoldable pub get_block : Bytes → Storage B → Option Block
  get_block hash s = do encoded ← ops.get hash s.block_bucket; some (codec.decode_block encoded)

  unfoldable pub get_newest_block_hash : Storage B → Option Bytes
  get_newest_block_hash s = ops.get only_newest_block s.newest_block_hash_bucket
