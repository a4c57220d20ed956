-- ===== src/ExClique/Filter/Counts.antt =====
-- The filter against the bag of the items added and not removed.
use blbchain.Base.{
  ℕ, zero, suc, ◌+◌, ◌-◌, ◌*◌, ◌≤◌, ◌<◌, ◌≡◌, refl, ap, ◌∙◌, true, false, List, [], ◌∷◌, ◌++◌,
  Bytes, bytes_eq, ◌==◌, ltb, nat_beq, nat_beq_iff, if◌then◌else◌, Bool-cases, inl, inr, length,
  get_or, length-set, get_or-set_self, get_or-set_ne, length-replicate, replicate, arith,
}
use blbchain.ExClique.Filter.{
  CountingBloomFilter, new_counting_bloom_filter, increment, decrement, hash, add_loop, remove_loop,
  contains_loop, count_loop, add, remove, contains, get_count,
}

abbrev pub one_at : ℕ → ℕ → ℕ
one_at p q = if nat_beq p q then 1 else 0

one_at_self : (p : ℕ) → one_at p p ≡ 1
one_at_self p = ground (arith, nat_beq_iff p p)

le_of_times : (k a h g : ℕ) → a ≡ 1 → k * (a + h) ≤ g → k ≤ g
le_of_times k a h g e le = omega (arith, ap (λ (b : ℕ). k * b) e)

le_of_factor : (k h g : ℕ) → 0 < k → k * h ≤ g → h ≤ g
le_of_factor k h g some_k le = grind arith

get_or-increment :
    (p q : ℕ) (cs : List ℕ)
    → p < length cs
    → get_or cs p 0 < 255
    → get_or (increment p cs) q 0 ≡ get_or cs q 0 + one_at p q
unfolding increment
get_or-increment p q cs h small = ground (
  arith,
  get_or-set_self cs p (get_or cs p 0 + 1) 0 h,
  get_or-set_ne cs p q (get_or cs p 0 + 1) 0,
)

get_or-decrement :
    (p q : ℕ) (cs : List ℕ)
    → p < length cs
    → 0 < get_or cs p 0
    → get_or (decrement p cs) q 0 + one_at p q ≡ get_or cs q 0
unfolding decrement
get_or-decrement p q cs h some_there = ground (
  arith,
  get_or-set_self cs p (get_or cs p 0 - 1) 0 h,
  get_or-set_ne cs p q (get_or cs p 0 - 1) 0,
)

length-increment : (p : ℕ) (cs : List ℕ) → length (increment p cs) ≡ length cs
unfolding increment
length-increment p cs = ground (arith, length-set cs p (get_or cs p 0 + 1))

length-decrement : (p : ℕ) (cs : List ℕ) → length (decrement p cs) ≡ length cs
unfolding decrement
length-decrement p cs = ground (arith, length-set cs p (get_or cs p 0 - 1))

module _ (sum64 : Bytes → ℕ) where
  -- How often the item's positions, from the loop's variable on, fall on a position.
  abbrev pub hits : ℕ → Bytes → ℕ → ℕ → ℕ → ℕ
  hits size item zero i q = 0
  hits size item (suc n) i q = one_at (hash sum64 size item i) q + hits size item n (i + 1) q

  -- How often the positions of a bag of items fall on a position.
  abbrev pub load : CountingBloomFilter → List Bytes → ℕ → ℕ
  load cbf [] q = 0
  load cbf (item ∷ bag) q = hits cbf.size item cbf.hash_num 0 q + load cbf bag q

  -- Each counter is the load of its position, and has not been stopped at 255.
  pub record IsExact (bag : List Bytes) (cbf : CountingBloomFilter) : Type 0 where
    pub nonempty : 0 < cbf.size
    pub sized : length cbf.counters ≡ cbf.size
    pub exact : (q : ℕ) → get_or cbf.counters q 0 ≡ load cbf bag q
    pub fits : (q : ℕ) → load cbf bag q ≤ 255

  hash-lt : (size : ℕ) (item : Bytes) (i : ℕ) → 0 < size → hash sum64 size item i < size
  unfolding hash
  hash-lt size item i h = grind arith

  length-add_loop :
      (size : ℕ) (item : Bytes) (n i : ℕ) (cs : List ℕ)
      → length (add_loop sum64 size item n i cs) ≡ length cs
  unfolding add_loop
  length-add_loop size item zero i cs = refl
  length-add_loop size item (suc n) i cs =
      length-add_loop size item n (i + 1) (increment (hash sum64 size item i) cs)
      ∙ length-increment (hash sum64 size item i) cs

  length-remove_loop :
      (size : ℕ) (item : Bytes) (n i : ℕ) (cs : List ℕ)
      → length (remove_loop sum64 size item n i cs) ≡ length cs
  unfolding remove_loop
  length-remove_loop size item zero i cs = refl
  length-remove_loop size item (suc n) i cs =
      length-remove_loop size item n (i + 1) (decrement (hash sum64 size item i) cs)
      ∙ length-decrement (hash sum64 size item i) cs

  get_or-add_loop :
      (size : ℕ) (item : Bytes) (n i : ℕ) (cs : List ℕ)
      → 0 < size
      → length cs ≡ size
      → ((q : ℕ) → get_or cs q 0 + hits size item n i q ≤ 255)
      → (q : ℕ)
      → get_or (add_loop sum64 size item n i cs) q 0 ≡ get_or cs q 0 + hits size item n i q
  unfolding add_loop
  get_or-add_loop size item zero i cs some_size sized small q = omega arith
  get_or-add_loop size item (suc n) i cs some_size sized small q =
      let p = hash sum64 size item i in
      let inside : p < length cs = omega (arith, hash-lt size item i some_size) in
      let low : get_or cs p 0 < 255 = ground (arith, small p) in
      let step = λ (r : ℕ). get_or-increment p r cs inside low in
      get_or-add_loop size item n (i + 1) (increment p cs) some_size (length-increment p cs ∙ sized)
        (λ r. omega (arith, step r, small r)) q
      ∙ omega (arith, step q)

  get_or-remove_loop :
      (size : ℕ) (item : Bytes) (n i : ℕ) (cs : List ℕ)
      → 0 < size
      → length cs ≡ size
      → ((q : ℕ) → hits size item n i q ≤ get_or cs q 0)
      → (q : ℕ)
      → get_or (remove_loop sum64 size item n i cs) q 0 + hits size item n i q ≡ get_or cs q 0
  unfolding remove_loop
  get_or-remove_loop size item zero i cs some_size sized large q = omega arith
  get_or-remove_loop size item (suc n) i cs some_size sized large q =
      let p = hash sum64 size item i in
      let inside : p < length cs = omega (arith, hash-lt size item i some_size) in
      let high : 0 < get_or cs p 0 = ground (arith, large p) in
      let step = λ (r : ℕ). get_or-decrement p r cs inside high in
      omega (
        arith,
        step q,
        get_or-remove_loop size item n (i + 1) (decrement p cs) some_size
            (length-decrement p cs ∙ sized) (λ r. omega (arith, step r, large r)) q,
      )

  contains_loop-true :
      (size : ℕ) (item : Bytes) (n i : ℕ) (cs : List ℕ)
      → ((q : ℕ) → hits size item n i q ≤ get_or cs q 0)
      → contains_loop sum64 size item n i cs ≡ true
  unfolding contains_loop
  contains_loop-true size item zero i cs large = refl
  contains_loop-true size item (suc n) i cs large =
      let p = hash sum64 size item i in
      let here : nat_beq (get_or cs p 0) 0 ≡ false = ground (arith, large p) in
      rw here (contains_loop-true size item n (i + 1) cs (λ q. omega (arith, large q)))

  le-count_loop :
      (size : ℕ) (item : Bytes) (k n i least : ℕ) (cs : List ℕ)
      → k ≤ least
      → ((q : ℕ) → k * hits size item n i q ≤ get_or cs q 0)
      → k ≤ count_loop sum64 size item n i least cs
  unfolding count_loop
  le-count_loop size item k zero i least cs low large = low
  le-count_loop size item k (suc n) i least cs low large =
      let p = hash sum64 size item i in
      let here : k ≤ get_or cs p 0 =
        le_of_times k (one_at p p) (hits size item n (i + 1) p) _ (one_at_self p) (large p) in
      le-count_loop size item k n (i + 1)
        (if ltb (get_or cs p 0) least then get_or cs p 0 else least) cs (ground arith)
        (λ q. omega (arith, large q))

  load-append :
      (cbf : CountingBloomFilter) (xs ys : List Bytes) (q : ℕ)
      → load cbf (xs ++ ys) q ≡ load cbf xs q + load cbf ys q
  load-append cbf [] ys q = omega arith
  load-append cbf (x ∷ xs) ys q = omega (arith, load-append cbf xs ys q)

  pub new-IsExact :
      (size hash_num : ℕ) → 0 < size → IsExact [] (new_counting_bloom_filter size hash_num)
  unfolding new_counting_bloom_filter
  new-IsExact size hash_num h = record {
    nonempty = h;
    sized = length-replicate size 0;
    exact = zeros size;
    fits = λ q. omega arith;
  }
    where
      zeros : (n q : ℕ) → get_or {A = ℕ} (replicate n 0) q 0 ≡ 0
      zeros zero q = refl
      zeros (suc n) zero = refl
      zeros (suc n) (suc q) = zeros n q

  -- Adding an item keeps the counters exact as long as none of them would pass 255.
  pub add-IsExact :
      (item : Bytes) (bag : List Bytes) (cbf : CountingBloomFilter)
      → IsExact bag cbf
      → ((q : ℕ) → load cbf (item ∷ bag) q ≤ 255)
      → IsExact (item ∷ bag) (add sum64 item cbf)
  unfolding add
  add-IsExact item bag cbf v small = record {
    nonempty = v.nonempty;
    sized = length-add_loop cbf.size item cbf.hash_num 0 cbf.counters ∙ v.sized;
    exact = λ q. omega (
      arith,
      v.exact q,
      get_or-add_loop cbf.size item cbf.hash_num 0 cbf.counters v.nonempty v.sized
          (λ r. omega (arith, v.exact r, small r)) q,
    );
    fits = small;
  }

  -- Removing one of the items added keeps the counters exact for the others.
  pub remove-IsExact :
      (item : Bytes) (xs ys : List Bytes) (cbf : CountingBloomFilter)
      → IsExact (xs ++ item ∷ ys) cbf
      → IsExact (xs ++ ys) (remove sum64 item cbf)
  unfolding remove
  remove-IsExact item xs ys cbf v = record {
    nonempty = v.nonempty;
    sized = length-remove_loop cbf.size item cbf.hash_num 0 cbf.counters ∙ v.sized;
    exact = λ q. omega (
      arith,
      v.exact q,
      load-append cbf xs (item ∷ ys) q,
      load-append cbf xs ys q,
      get_or-remove_loop cbf.size item cbf.hash_num 0 cbf.counters v.nonempty v.sized
          (λ r. omega (arith, v.exact r, load-append cbf xs (item ∷ ys) r)) q,
    );
    fits = λ q. omega (arith, v.fits q, load-append cbf xs (item ∷ ys) q, load-append cbf xs ys q);
  }

  -- How often an item is in a bag.
  abbrev pub count : Bytes → List Bytes → ℕ
  count item [] = 0
  count item (x ∷ xs) = (if x == item then 1 else 0) + count item xs

  count-le-load :
      (cbf : CountingBloomFilter) (item : Bytes) (bag : List Bytes) (q : ℕ)
      → count item bag * hits cbf.size item cbf.hash_num 0 q ≤ load cbf bag q
  count-le-load cbf item [] q = omega arith
  count-le-load cbf item (x ∷ bag) q = elim (Bool-cases (x == item)) [
    | inl t ↦ rw t (
        omega (
          arith,
          count-le-load cbf item bag q,
          ap (λ y. hits cbf.size y cbf.hash_num 0 q) ((bytes_eq.equals_iff x item).0 t),
        ))
    | inr f ↦ rw f (omega (arith, count-le-load cbf item bag q))
  ]

  -- An item that was added and not removed is found: there is no false negative.
  pub contains-count :
      (item : Bytes) (bag : List Bytes) (cbf : CountingBloomFilter)
      → IsExact bag cbf
      → 0 < count item bag
      → contains sum64 item cbf ≡ true
  unfolding contains
  contains-count item bag cbf v there =
      contains_loop-true cbf.size item cbf.hash_num 0 cbf.counters (λ q. omega (
        arith,
        v.exact q,
        le_of_factor (count item bag) (hits cbf.size item cbf.hash_num 0 q) _ there
            (count-le-load cbf item bag q),
      ))

  -- `GetCount` is at least the number of times that the item is in.
  pub count-le-get_count :
      (item : Bytes) (bag : List Bytes) (cbf : CountingBloomFilter)
      → IsExact bag cbf
      → 0 < cbf.hash_num
      → count item bag ≤ get_count sum64 item cbf
  unfolding get_count
  count-le-get_count item bag cbf v some_hash =
      le-count_loop cbf.size item (count item bag) cbf.hash_num 0 255 cbf.counters
        (below cbf.hash_num some_hash (λ q. omega (arith, v.fits q, count-le-load cbf item bag q)))
        (λ q. omega (arith, v.exact q, count-le-load cbf item bag q))
    where
      below :
          (n : ℕ)
          → 0 < n
          → ((q : ℕ) → count item bag * hits cbf.size item n 0 q ≤ 255)
          → count item bag ≤ 255
      below zero h small = elim h [ ]
      below (suc n) h small =
          let p = hash sum64 cbf.size item 0 in
          le_of_times (count item bag) (one_at p p) (hits cbf.size item n (0 + 1) p) 255
            (one_at_self p) (small p)
