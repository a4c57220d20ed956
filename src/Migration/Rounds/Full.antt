-- ===== src/Migration/Rounds/Full.antt =====
-- Maps whose keys are numbers below a bound, such as the shards' numbers.
use blbchain.Base.{
  sym, insert, ◌∙◌, arith, Bool-cases, if◌then◌else◌, nat_eq, nat_beq, none, some, ℕ, zero, suc,
  ◌+◌, ◌≤◌, ◌<◌, ◌≡◌, refl, subst, inl, inr, [], ◌∷◌, nat_beq_iff, ltb, Option-cases, Map, lookup,
  is_some, HasKeysOnce, length, All,
}

module _ {V : Type 0} where
  abbrev one_if_has : ℕ → Map ℕ V → ℕ
  one_if_has k m = if is_some (lookup k m) then 1 else 0

  -- How many of the numbers below `n` are keys.
  abbrev keys_below : ℕ → Map ℕ V → ℕ
  keys_below zero m = 0
  keys_below (suc n) m = keys_below n m + one_if_has n m

  abbrev pub AllBelow : ℕ → Map ℕ V → Type 0
  AllBelow n m = All (λ e. e.0 < n) m

  keys_below-cons :
      (k : ℕ) (v : V) (m : Map ℕ V) (n : ℕ)
      → lookup k m ≡ none
      → keys_below n ((k, v) ∷ m) ≡ keys_below n m + (if ltb k n then 1 else 0)
  unfolding lookup
  keys_below-cons k v m zero new = ground arith
  keys_below-cons k v m (suc n) new = elim (Bool-cases (nat_beq k n)) [
    | inl t ↦
        let same : k ≡ n = (nat_beq_iff k n).0 t in
        rw (t, subst (λ j. lookup j m ≡ none) same new)
          (ground (arith, keys_below-cons k v m n new, same))
    | inr f ↦ rw f (ground (arith, keys_below-cons k v m n new, f))
  ]

  keys_below-length :
      (n : ℕ) (m : Map ℕ V) → HasKeysOnce m → AllBelow n m → keys_below n m ≡ length m
  unfolding lookup
  keys_below-length n [] once below = none_below n
    where
      none_below : (n : ℕ) → keys_below n [] ≡ 0
      none_below zero = refl
      none_below (suc n) = omega (arith, none_below n)
  keys_below-length n ((k, v) ∷ m) (new, once) (small, below) =
      ground (arith, keys_below-cons k v m n new, keys_below-length n m once below, small)

  keys_below-le : (n : ℕ) (m : Map ℕ V) → keys_below n m ≤ n
  keys_below-le zero m = omega arith
  keys_below-le (suc n) m = ground (arith, keys_below-le n m)

  keys_below-lt : (n i : ℕ) (m : Map ℕ V) → i < n → lookup i m ≡ none → keys_below n m < n
  keys_below-lt zero i m h e = omega arith
  keys_below-lt (suc n) i m h e = elim (Bool-cases (nat_beq i n)) [
    | inl t ↦
        let same : i ≡ n = (nat_beq_iff i n).0 t in
        rw (subst (λ j. lookup j m ≡ none) same e) (omega (arith, keys_below-le n m))
    | inr f ↦ ground (arith, keys_below-lt n i m, e, f)
  ]

  pub HasKeysOnce-full :
      (n : ℕ) (m : Map ℕ V)
      → HasKeysOnce m
      → AllBelow n m
      → n ≤ length m
      → (i : ℕ) → i < n
      → (v : V) × (lookup i m ≡ some v)
  HasKeysOnce-full n m once below full i h = elim (Option-cases (lookup i m)) [
    | inl e ↦
        absurd (omega (arith, keys_below-lt n i m h e, keys_below-length n m once below, full))
    | inr found ↦ found
  ]

pub insert-AllBelow :
    {V : Type 0} (n k : ℕ) (v : V) (m : Map ℕ V) → k < n → AllBelow n m → AllBelow n (insert k v m)
unfolding insert
insert-AllBelow n k v [] small below = (small, tt)
insert-AllBelow n k v ((j, w) ∷ m) small (first, below) = elim (Bool-cases (nat_beq j k)) [
  | inl t ↦ rw t (first, below)
  | inr f ↦ rw f (first, insert-AllBelow n k v m small below)
]

pub length-insert : {V : Type 0} (k : ℕ) (v : V) (m : Map ℕ V) → length m ≤ length (insert k v m)
unfolding insert
length-insert k v [] = omega arith
length-insert k v ((j, w) ∷ m) = elim (Bool-cases (nat_beq j k)) [
  | inl t ↦ rw t (omega arith)
  | inr f ↦ rw f (omega (arith, length-insert k v m))
]

none≢some : {V : Type 0} {x : V} → ¬ (none ≡ some x)
none≢some h = cc

-- A new key makes the map longer by one.
pub length-insert_new :
    {V : Type 0} (k : ℕ) (v : V) (m : Map ℕ V)
    → lookup k m ≡ none
    → length (insert k v m) ≡ length m + 1
unfolding insert lookup
length-insert_new k v [] new = omega arith
length-insert_new k v ((j, w) ∷ m) new = elim (Bool-cases (nat_beq j k)) [
  | inl t ↦ absurd (none≢some {x = w} (sym new ∙ rw t refl))
  | inr f ↦ rw f (omega (arith, length-insert_new k v m (sym (rw f refl) ∙ new)))
]
