-- ===== src/ExClique/Filter/History.antt =====
-- The filter after any history of additions and removals.
use blbchain.Base.{ℕ, ◌≤◌, ◌<◌, ◌≡◌, refl, true, List, [], ◌∷◌, ◌++◌, Bytes, arith}
use blbchain.ExClique.Filter.{
  CountingBloomFilter, new_counting_bloom_filter, add, remove, contains, get_count,
}
use blbchain.ExClique.Filter.Counts.{
  IsExact, load, count, new-IsExact, add-IsExact, remove-IsExact, contains-count,
  count-le-get_count,
}

module _ (sum64 : Bytes → ℕ) where
  -- The filter and the items in it: what is removed is in, and no position's load passes 255.
  pub data History (size hash_num : ℕ) : List Bytes → CountingBloomFilter → Type 0 where
    start : History size hash_num [] (new_counting_bloom_filter size hash_num)
    adds :
        (item : Bytes) {bag : List Bytes} {cbf : CountingBloomFilter}
        → History size hash_num bag cbf
        → ((q : ℕ) → load sum64 cbf (item ∷ bag) q ≤ 255)
        → History size hash_num (item ∷ bag) (add sum64 item cbf)
    removes :
        (item : Bytes) (xs ys : List Bytes) {cbf : CountingBloomFilter}
        → History size hash_num (xs ++ item ∷ ys) cbf
        → History size hash_num (xs ++ ys) (remove sum64 item cbf)

  History-IsExact :
      {size hash_num : ℕ} {bag : List Bytes} {cbf : CountingBloomFilter}
      → 0 < size
      → History size hash_num bag cbf
      → IsExact sum64 bag cbf
  History-IsExact {size = size} {hash_num = hash_num} h start = new-IsExact sum64 size hash_num h
  History-IsExact h (adds item {bag = bag} {cbf = cbf} past small) =
      add-IsExact sum64 item bag cbf (History-IsExact h past) small
  History-IsExact h (removes item xs ys {cbf = cbf} past) =
      remove-IsExact sum64 item xs ys cbf (History-IsExact h past)

  History-hash_num :
      {size hash_num : ℕ} {bag : List Bytes} {cbf : CountingBloomFilter}
      → History size hash_num bag cbf
      → cbf.hash_num ≡ hash_num
  unfolding new_counting_bloom_filter add remove
  History-hash_num start = refl
  History-hash_num (adds item past small) = History-hash_num past
  History-hash_num (removes item xs ys past) = History-hash_num past

  -- After any additions, and removals of items that are in, during which no position's counter would
  -- pass 255, each item that is in is found, and counted at least as often as it is in.
  pub History-contains :
      {size hash_num : ℕ} {bag : List Bytes} {cbf : CountingBloomFilter} (item : Bytes)
      → 0 < size
      → 0 < hash_num
      → History size hash_num bag cbf
      → 0 < count sum64 item bag
      → (contains sum64 item cbf ≡ true) × (count sum64 item bag ≤ get_count sum64 item cbf)
  History-contains {bag = bag} {cbf = cbf} item h k past there = (
    contains-count sum64 item bag cbf (History-IsExact h past) there,
    count-le-get_count sum64 item bag cbf (History-IsExact h past)
        (omega (arith, History-hash_num past)),
  )
