-- ===== src/Storage/Examples.antt =====
-- A database whose buckets are maps, which refuse an empty key as bolt does.
use blbchain.Base.{
  ℕ, ◌≡◌, refl, sym, Bool, true, false, Option, none, some, [], ◌∷◌, Bytes, bytes_eq, ◌==◌, Map,
  lookup, insert, lookup-insert_self, lookup-insert_ne,
}
use blbchain.Core.Block.{Block, BlockHeader}
use blbchain.Storage.{
  Buckets, BlockCodec, Storage, add_block, get_block_header, get_block, get_newest_block_hash,
}
use blbchain.Storage.Reads.{add_block-reads}

abbrev put_map : Bytes → Bytes → Map Bytes Bytes → Option (Map Bytes Bytes)
put_map [] v b = none
put_map (x ∷ xs) v b = some (insert (x ∷ xs) v b)

abbrev has_key : Bytes → Bool
has_key [] = false
has_key (x ∷ xs) = true

put_map_fits :
    (k v : Bytes) (b : Map Bytes Bytes)
    → has_key k ≡ true
    → (b' : Map Bytes Bytes) × (put_map k v b ≡ some b')
put_map_fits [] v b h = cc
put_map_fits (x ∷ xs) v b h = (insert (x ∷ xs) v b, refl)

some_inj : {x y : Map Bytes Bytes} → some x ≡ some y → x ≡ y
some_inj e = cc

lookup_same :
    (k v : Bytes) (b b' : Map Bytes Bytes) → put_map k v b ≡ some b' → lookup k b' ≡ some v
lookup_same [] v b b' e = cc
lookup_same (x ∷ xs) v b b' e = rw (sym (some_inj e)) (lookup-insert_self (x ∷ xs) v b)

lookup_other :
    (k j v : Bytes) (b b' : Map Bytes Bytes)
    → put_map k v b ≡ some b'
    → (k == j) ≡ false
    → lookup j b' ≡ lookup j b
lookup_other [] j v b b' e f = cc
lookup_other (x ∷ xs) j v b b' e f = rw (sym (some_inj e)) (lookup-insert_ne (x ∷ xs) j v b f)

abbrev buckets : Buckets (Map Bytes Bytes)
buckets = record {
  fits = λ k v. has_key k;
  put = put_map;
  get = λ k b. lookup k b;
  put_fits = put_map_fits;
  get_same = lookup_same;
  get_other = lookup_other;
}

abbrev header_of : ℕ → BlockHeader
header_of n = record {
  parent_block_hash = [];
  state_root = [];
  tx_root = [];
  bloom = [];
  number = n;
  time = 0;
  miner = 0;
}

abbrev block_of : ℕ → Block
block_of n = record { header = header_of n; body = []; hash = n ∷ [] }

abbrev number_in : Bytes → ℕ
number_in [] = 0
number_in (n ∷ ns) = n

abbrev codec : BlockCodec
codec = record {
  encode_block = λ b. b.header.number ∷ [];
  decode_block = λ bytes. block_of (number_in bytes);
  encode_header = λ h. h.number ∷ [];
  decode_header = λ bytes. header_of (number_in bytes);
}

abbrev empty_storage : Storage (Map Bytes Bytes)
empty_storage = record {
  block_bucket = [];
  block_header_bucket = [];
  newest_block_hash_bucket = [];
}

add_block-reads_example :
    (s : Storage (Map Bytes Bytes)) × (add_block buckets codec (block_of 4) empty_storage ≡ some s)
    × (get_block buckets codec (4 ∷ []) s ≡ some (block_of 4))
    × (get_block_header buckets codec (4 ∷ []) s ≡ some (header_of 4))
    × (get_newest_block_hash buckets codec s ≡ some (4 ∷ []))
    × ((hash : Bytes)
        → ((4 ∷ []) == hash) ≡ false
        → (get_block buckets codec hash s ≡ get_block buckets codec hash empty_storage)
          × (get_block_header buckets codec hash s
              ≡ get_block_header buckets codec hash empty_storage))
add_block-reads_example =
    add_block-reads buckets codec (block_of 4) empty_storage refl refl refl refl refl
