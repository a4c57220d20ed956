-- ===== src/ExClique/Order/Fairness.antt =====
-- The order of an epoch by score.
use blbchain.Base.{
  ℕ, ◌≡◌, inl, inr, Bool, true, false, List, [], ◌∷◌, Perm, if◌then◌else◌, Bool-cases, All, All-map,
  arith,
}
use blbchain.Base.Int.{ℤ, ◌≤ℤ◌, ltb_ℤ}
use blbchain.ExClique.Order.{
  OrderManager, sorted_insert, sort_slice, comes_first, get_fairness_score, update_order_for_epoch,
}
use mathlib.Core.List.Perm

module _ (less : ℕ → ℕ → Bool) where
  sorted_insert-Perm : (v : ℕ) (ws : List ℕ) → Perm (sorted_insert less v ws) (v ∷ ws)
  unfolding sorted_insert
  sorted_insert-Perm v [] = Perm.refl _
  sorted_insert-Perm v (w ∷ ws) = elim (Bool-cases (less v w)) [
    | inl t ↦ rw t (Perm.refl _)
    | inr f ↦ rw f (Perm.trans (Perm.cons w (sorted_insert-Perm v ws)) (Perm.swap v w ws))
  ]

  pub sort_slice-Perm : (vs : List ℕ) → Perm (sort_slice less vs) vs
  unfolding sort_slice
  sort_slice-Perm [] = Perm.refl _
  sort_slice-Perm (v ∷ vs) =
      Perm.trans (sorted_insert-Perm v (sort_slice less vs)) (Perm.cons v (sort_slice-Perm vs))

-- No validator stands behind one with a higher score.
abbrev pub IsFair : OrderManager → List ℕ → Type 0
IsFair om [] = Unit
IsFair om (v ∷ vs) = All (λ w. get_fairness_score v om ≤ℤ get_fairness_score w om) vs × IsFair om vs

of_true :
    (a b : ℤ) (c : Bool)
    → (if ltb_ℤ a b then true else if ltb_ℤ b a then false else c) ≡ true
    → a ≤ℤ b
of_true a b c h = ground arith

of_false :
    (a b : ℤ) (c : Bool)
    → (if ltb_ℤ a b then true else if ltb_ℤ b a then false else c) ≡ false
    → b ≤ℤ a
of_false a b c h = ground arith

module _ (hash : ℕ → ℕ → ℕ) (epoch : ℕ) (om : OrderManager) where
  abbrev score : ℕ → ℤ
  score v = get_fairness_score v om

  first-≤ℤ : (v w : ℕ) → comes_first hash epoch om v w ≡ true → score v ≤ℤ score w
  unfolding comes_first
  first-≤ℤ v w h = of_true (score v) (score w) _ h

  not_first-≤ℤ : (v w : ℕ) → comes_first hash epoch om v w ≡ false → score w ≤ℤ score v
  unfolding comes_first
  not_first-≤ℤ v w h = of_false (score v) (score w) _ h

  All-sorted_insert :
      (u v : ℕ) (ws : List ℕ)
      → score u ≤ℤ score v
      → All (λ w. score u ≤ℤ score w) ws
      → All (λ w. score u ≤ℤ score w) (sorted_insert (comes_first hash epoch om) v ws)
  unfolding sorted_insert
  All-sorted_insert u v [] h all = (h, tt)
  All-sorted_insert u v (w ∷ ws) h all = elim (Bool-cases (comes_first hash epoch om v w)) [
    | inl t ↦ rw t (h, all)
    | inr f ↦ rw f (all.0, All-sorted_insert u v ws h all.1)
  ]

  sorted_insert-IsFair :
      (v : ℕ) (ws : List ℕ)
      → IsFair om ws
      → IsFair om (sorted_insert (comes_first hash epoch om) v ws)
  unfolding sorted_insert
  sorted_insert-IsFair v [] h = (tt, tt)
  sorted_insert-IsFair v (w ∷ ws) h = elim (Bool-cases (comes_first hash epoch om v w)) [
    | inl t ↦
        let low = first-≤ℤ v w t in
        rw t (
          (
            low,
            All-map (λ x. score w ≤ℤ score x) (λ x. score v ≤ℤ score x) (λ x above. omega arith) ws
                h.0,
          ),
          h,
        )
    | inr f ↦
        rw f (All-sorted_insert w v ws (not_first-≤ℤ v w f) h.0, sorted_insert-IsFair v ws h.1)
  ]

  sort_slice-IsFair : (vs : List ℕ) → IsFair om (sort_slice (comes_first hash epoch om) vs)
  unfolding sort_slice
  sort_slice-IsFair [] = tt
  sort_slice-IsFair (v ∷ vs) =
      sorted_insert-IsFair v (sort_slice (comes_first hash epoch om) vs) (sort_slice-IsFair vs)

-- The order of a new epoch has each validator as often as the list of validators, and no validator
-- behind one with a higher score.
pub update_order_for_epoch-IsFair :
    (hash : ℕ → ℕ → ℕ) (epoch : ℕ) (om : OrderManager)
    → Perm (update_order_for_epoch hash epoch om).base_order om.validators
      × IsFair om (update_order_for_epoch hash epoch om).base_order
unfolding update_order_for_epoch
update_order_for_epoch-IsFair hash epoch om = (
  sort_slice-Perm (comes_first hash epoch om) om.validators,
  sort_slice-IsFair hash epoch om om.validators,
)
