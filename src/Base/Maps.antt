-- ===== src/Base/Maps.antt =====
-- Go's maps as association lists; the order of the list stands for the order of a `range` loop,
-- which Go leaves open.
use Prim.Native.Nat.{ℕ}
use mathlib.Core.Path.{◌≡◌, refl, sym, ◌∙◌}
use mathlib.Core.Logic.{inl, inr}
use mathlib.Core.Bool.{Bool, true, false}
use mathlib.Core.Option.{Option, none, some}
use mathlib.Core.List.{List, [], ◌∷◌}
use blbchain.Base.Tests.{Comparable, ◌==◌, if◌then◌else◌, Bool-cases, beq_refl, beq_false}

abbrev pub Map : Type 0 → Type 0 → Type 0
Map K V = List (K × V)

abbrev pub is_some {ℓ} : {A : Type ℓ} → Option A → Bool
is_some none = false
is_some (some a) = true

-- The value that Go reads: the zero value where the key is missing.
abbrev pub or_zero {ℓ} : {A : Type ℓ} → Option A → A → A
or_zero none z = z
or_zero (some a) z = a

module _ {K V : Type 0} ⦃e : Comparable K⦄ where
  unfoldable pub lookup : K → Map K V → Option V
  lookup key [] = none
  lookup key ((other, value) ∷ rest) = if other == key then some value else lookup key rest

  unfoldable pub insert : K → V → Map K V → Map K V
  insert key new [] = (key, new) ∷ []
  insert key new ((other, old) ∷ rest) =
      if other == key then (other, new) ∷ rest else (other, old) ∷ insert key new rest

  pub lookup-insert_self : (k : K) (v : V) (m : Map K V) → lookup k (insert k v m) ≡ some v
  unfolding lookup insert
  lookup-insert_self k v [] = rw (beq_refl k)
  lookup-insert_self k v ((j, w) ∷ m) = elim (Bool-cases (j == k)) [
    | inl t ↦ rw (t, t)
    | inr f ↦ rw (f, f) (lookup-insert_self k v m)
  ]

  pub lookup-insert_ne :
      (k j : K) (v : V) (m : Map K V) → (k == j) ≡ false → lookup j (insert k v m) ≡ lookup j m
  unfolding lookup insert
  lookup-insert_ne k j v [] h = rw h
  lookup-insert_ne k j v ((i, w) ∷ m) h = elim (Bool-cases (i == k)) [
    | inl t ↦ rw t (rw ((e.equals_iff i k).0 t) (rw h))
    | inr f ↦
        rw f
          (elim (Bool-cases (i == j)) [ inl t ↦ rw t | inr g ↦ rw g (lookup-insert_ne k j v m h) ])
  ]

  -- Each key stands once.
  abbrev pub HasKeysOnce : Map K V → Type 0
  HasKeysOnce [] = Unit
  HasKeysOnce ((key, val) ∷ m) = (lookup key m ≡ none) × HasKeysOnce m

  pub insert-HasKeysOnce :
      (k : K) (v : V) (m : Map K V) → HasKeysOnce m → HasKeysOnce (insert k v m)
  unfolding lookup insert
  insert-HasKeysOnce k v [] once = (refl, tt)
  insert-HasKeysOnce k v ((j, w) ∷ m) (new, once) = elim (Bool-cases (j == k)) [
    | inl t ↦ rw t (new, once)
    | inr f ↦ rw f (
      lookup-insert_ne k j v m
            (beq_false k j (λ same. true≢false (sym ((e.equals_iff j k).1 (sym same)) ∙ f)))
          ∙ new,
      insert-HasKeysOnce k v m once,
    )
  ]
    where
      true≢false : ¬ (true ≡ false)
      true≢false h = cc

-- The first of two results that is there.
abbrev pub or_else : {A : Type 0} → Option A → Option A → Option A
or_else none o = o
or_else (some a) o = some a

pub or_else-or_zero :
    (o p : Option ℕ) → is_some (or_else o p) ≡ true → or_else o p ≡ some (or_zero o (or_zero p 0))
or_else-or_zero none none h = cc
or_else-or_zero none (some a) h = refl
or_else-or_zero (some a) p h = refl
