-- ===== src/ExClique/Filter.antt =====
-- consensus_shard/exclique/cbf.go: the counting Bloom filter. `sum64` is `hash/fnv`'s 64-bit FNV-1a of
-- the bytes written. A counter is a byte. `hash` panics at size 0, which `NewExCliqueNode` does not
-- make.
pub mod Counts
pub mod History
use blbchain.Base.{
  ℕ, zero, suc, ◌+◌, ◌-◌, ◌%◌, ◌^◌, Bool, true, false, List, [], ◌∷◌, ◌++◌, Bytes, ltb, nat_beq,
  if◌then◌else◌, length, get_or, set, replicate,
}

pub record CountingBloomFilter : Type 0 where
  pub counters : List ℕ
  pub size : ℕ
  pub hash_num : ℕ

unfoldable pub new_counting_bloom_filter : ℕ → ℕ → CountingBloomFilter
new_counting_bloom_filter size hash_num = record {
  counters = replicate size 0;
  size = size;
  hash_num = hash_num;
}

-- The bodies of the loops of `Add` and `Remove`.
unfoldable pub increment : ℕ → List ℕ → List ℕ
increment pos counters =
    if ltb (get_or counters pos 0) 255
    then set counters pos (get_or counters pos 0 + 1)
    else counters

unfoldable pub decrement : ℕ → List ℕ → List ℕ
decrement pos counters =
    if ltb 0 (get_or counters pos 0) then set counters pos (get_or counters pos 0 - 1) else counters

unfoldable pub clear : CountingBloomFilter → CountingBloomFilter
clear cbf = record cbf { counters = replicate (length cbf.counters) 0 }

unfoldable pub encode : CountingBloomFilter → Bytes
encode cbf = cbf.counters

unfoldable pub decode : Bytes → CountingBloomFilter → CountingBloomFilter
decode bytes cbf =
    if nat_beq (length bytes) (length cbf.counters) then record cbf { counters = bytes } else cbf

module _ (sum64 : Bytes → ℕ) where
  unfoldable pub hash : ℕ → Bytes → ℕ → ℕ
  hash size item seed = sum64 (item ++ (seed % 2 ^ 8) ∷ []) % size

  -- The loops, with the rounds left and the loop's variable.
  unfoldable pub add_loop : ℕ → Bytes → ℕ → ℕ → List ℕ → List ℕ
  unfolding hash increment
  add_loop size item zero i counters = counters
  add_loop size item (suc n) i counters =
      add_loop size item n (i + 1) (increment (hash size item i) counters)

  unfoldable pub remove_loop : ℕ → Bytes → ℕ → ℕ → List ℕ → List ℕ
  unfolding hash decrement
  remove_loop size item zero i counters = counters
  remove_loop size item (suc n) i counters =
      remove_loop size item n (i + 1) (decrement (hash size item i) counters)

  unfoldable pub contains_loop : ℕ → Bytes → ℕ → ℕ → List ℕ → Bool
  unfolding hash
  contains_loop size item zero i counters = true
  contains_loop size item (suc n) i counters =
      let rest = contains_loop size item n (i + 1) counters in
      if nat_beq (get_or counters (hash size item i) 0) 0 then false else rest

  unfoldable pub count_loop : ℕ → Bytes → ℕ → ℕ → ℕ → List ℕ → ℕ
  unfolding hash
  count_loop size item zero i least counters = least
  count_loop size item (suc n) i least counters =
      let here = get_or counters (hash size item i) 0 in
      count_loop size item n (i + 1) (if ltb here least then here else least) counters

  unfoldable pub add : Bytes → CountingBloomFilter → CountingBloomFilter
  unfolding add_loop
  add item cbf = record cbf { counters = add_loop cbf.size item cbf.hash_num 0 cbf.counters }

  unfoldable pub remove : Bytes → CountingBloomFilter → CountingBloomFilter
  unfolding remove_loop
  remove item cbf = record cbf { counters = remove_loop cbf.size item cbf.hash_num 0 cbf.counters }

  unfoldable pub contains : Bytes → CountingBloomFilter → Bool
  unfolding contains_loop
  contains item cbf = contains_loop cbf.size item cbf.hash_num 0 cbf.counters

  unfoldable pub get_count : Bytes → CountingBloomFilter → ℕ
  unfolding count_loop
  get_count item cbf = count_loop cbf.size item cbf.hash_num 0 255 cbf.counters
