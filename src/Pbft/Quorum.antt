-- ===== src/Pbft/Quorum.antt =====
-- How many nodes two quorums of 2f + 1, out of at most 3f + 1, have in common.
use blbchain.Base.{
  ℕ, zero, suc, ◌+◌, ◌≤◌, ◌<◌, ◌≡◌, refl, sym, ap, ◌∙◌, inl, inr, Bool, true, false, ◌&&◌, ◌||◌,
  List, [], ◌∷◌, nat_beq, nat_beq_iff, Bool-cases, length, filterb, All, arith,
}
use blbchain.Pbft.Votes.{Peer, recorded, Distinct}

abbrev one_if : Bool → ℕ
one_if true = 1
one_if false = 0

-- How many numbers below the bound pass the test.
abbrev count_below : (ℕ → Bool) → ℕ → ℕ
count_below test zero = 0
count_below test (suc n) = one_if (test n) + count_below test n

-- Has the shard's node with this number voted?
has_voted : ℕ → List Peer → ℕ → Bool
has_voted shard [] i = false
has_voted shard (x ∷ xs) i =
    (nat_beq x.node_id i && nat_beq x.shard_id shard) || has_voted shard xs i

-- The peer is one of the shard's n nodes.
abbrev pub IsMember : ℕ → ℕ → Peer → Type 0
IsMember shard n x = (x.shard_id ≡ shard) × (x.node_id < n)

abbrev pub common : List Peer → List Peer → List Peer
common ys xs = filterb (λ x. recorded ys x) xs

count_below-and :
    (a b : ℕ → Bool) (n : ℕ)
    → count_below a n + count_below b n ≤ n + count_below (λ i. a i && b i) n
count_below-and a b zero = omega arith
count_below-and a b (suc n) = ground (arith, count_below-and a b n)

count_below_mono :
    (a b : ℕ → Bool) (n : ℕ)
    → ((i : ℕ) → a i ≡ true → b i ≡ true)
    → count_below a n ≤ count_below b n
count_below_mono a b zero h = omega arith
count_below_mono a b (suc n) h = ground (arith, count_below_mono a b n h, h n)

count_below-or :
    (a b : ℕ → Bool) (n : ℕ) → count_below (λ i. a i || b i) n ≤ count_below a n + count_below b n
count_below-or a b zero = omega arith
count_below-or a b (suc n) = ground (arith, count_below-or a b n)

-- A number is met once below a bound above it, and never more than once.
count_below-eq_zero : (k n : ℕ) (c : Bool) → n ≤ k → count_below (λ i. nat_beq k i && c) n ≡ 0
count_below-eq_zero k zero c h = refl
count_below-eq_zero k (suc n) c h = ground (arith, count_below-eq_zero k n c (omega arith))

count_below-le_one : (k n : ℕ) (c : Bool) → count_below (λ i. nat_beq k i && c) n ≤ 1
count_below-le_one k zero c = omega arith
count_below-le_one k (suc n) c = elim (Bool-cases (nat_beq k n)) [
  | inl t ↦ ground (arith, count_below-eq_zero k n c (omega (arith, (nat_beq_iff k n).0 t)))
  | inr f ↦ ground (arith, count_below-le_one k n c)
]

count_below-insert :
    (k n : ℕ) (c : Bool) (test : ℕ → Bool)
    → c ≡ true
    → k < n
    → test k ≡ false
    → suc (count_below test n) ≤ count_below (λ i. (nat_beq k i && c) || test i) n
count_below-insert k zero c test e h f = elim h [ ]
count_below-insert k (suc n) c test e h f = elim (Bool-cases (nat_beq k n)) [
  | inl t ↦
      let free : test n ≡ false = ap test (sym ((nat_beq_iff k n).0 t)) ∙ f in
      ground (
        arith,
        free,
        count_below_mono test (λ i. (nat_beq k i && c) || test i) n (λ i p. or_right _ _ p),
      )
  | inr g ↦ ground (arith, count_below-insert k n c test e (below g) f)
]
  where
    or_right : (a b : Bool) → b ≡ true → (a || b) ≡ true
    or_right true b p = refl
    or_right false b p = p

    below : nat_beq k n ≡ false → k < n
    below g = ground arith

has_voted-le_length :
    (shard n : ℕ) (xs : List Peer) → count_below (has_voted shard xs) n ≤ length xs
unfolding has_voted
has_voted-le_length shard n [] = omega (arith, none_below n)
  where
    none_below : (n : ℕ) → count_below (λ _. false) n ≡ 0
    none_below zero = refl
    none_below (suc n) = omega (arith, none_below n)
has_voted-le_length shard n (x ∷ xs) = omega (
  arith,
  count_below-or (λ i. nat_beq x.node_id i && nat_beq x.shard_id shard) (has_voted shard xs) n,
  count_below-le_one x.node_id n (nat_beq x.shard_id shard),
  has_voted-le_length shard n xs,
)

-- A node of the shard is recorded exactly if its number has voted.
has_voted-recorded :
    (shard : ℕ) (xs : List Peer) (x : Peer)
    → x.shard_id ≡ shard
    → has_voted shard xs x.node_id ≡ recorded xs x
unfolding has_voted recorded
has_voted-recorded shard [] x e = refl
has_voted-recorded shard (y ∷ xs) x e = ground (arith, has_voted-recorded shard xs x e)

length-le_has_voted :
    (shard n : ℕ) (xs : List Peer)
    → Distinct xs
    → All (IsMember shard n) xs
    → length xs ≤ count_below (has_voted shard xs) n
unfolding has_voted
length-le_has_voted shard n [] d m = omega arith
length-le_has_voted shard n (x ∷ xs) (fresh, d) ((in_shard, small), m) = omega (
  arith,
  length-le_has_voted shard n xs d m,
  count_below-insert x.node_id n (nat_beq x.shard_id shard) (has_voted shard xs)
      ((nat_beq_iff x.shard_id shard).1 in_shard) small
      (has_voted-recorded shard xs x in_shard ∙ fresh),
)

has_voted-at :
    (shard : ℕ) (ys : List Peer) (x : Peer) (i : ℕ)
    → (nat_beq x.node_id i && nat_beq x.shard_id shard) ≡ true
    → has_voted shard ys i ≡ recorded ys x
has_voted-at shard ys x i t =
    ap (has_voted shard ys) (sym (same_id t)) ∙ has_voted-recorded shard ys x (same_shard t)
  where
    same_id : (nat_beq x.node_id i && nat_beq x.shard_id shard) ≡ true → x.node_id ≡ i
    same_id t = ground arith

    same_shard : (nat_beq x.node_id i && nat_beq x.shard_id shard) ≡ true → x.shard_id ≡ shard
    same_shard t = ground arith

has_voted-common :
    (shard : ℕ) (xs ys : List Peer) (i : ℕ)
    → (has_voted shard xs i && has_voted shard ys i) ≡ true
    → has_voted shard (common ys xs) i ≡ true
unfolding has_voted
has_voted-common shard [] ys i h = h
has_voted-common shard (x ∷ xs) ys i h =
    elim (Bool-cases (nat_beq x.node_id i && nat_beq x.shard_id shard)) [
      | inl t ↦ ground (arith, has_voted-at shard ys x i t)
      | inr f ↦ ground (arith, has_voted-common shard xs ys i)
    ]

-- Two sets of distinct nodes of a shard share at least as many nodes as their sizes exceed the
-- shard's size by.
pub length-common :
    (shard n : ℕ) (xs ys : List Peer)
    → Distinct xs
    → Distinct ys
    → All (IsMember shard n) xs
    → All (IsMember shard n) ys
    → length xs + length ys ≤ n + length (common ys xs)
length-common shard n xs ys dx dy mx my = omega (
  arith,
  length-le_has_voted shard n xs dx mx,
  length-le_has_voted shard n ys dy my,
  count_below-and (has_voted shard xs) (has_voted shard ys) n,
  count_below_mono (λ i. has_voted shard xs i && has_voted shard ys i)
      (has_voted shard (common ys xs)) n (has_voted-common shard xs ys),
  has_voted-le_length shard n (common ys xs),
)
