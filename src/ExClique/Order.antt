-- ===== src/ExClique/Order.antt =====
-- consensus_shard/exclique/order.go: the order in which the validators are in turn. `hash` is
-- `hashValidator`, SHA-256 of a validator's number and an epoch, as a number. `none` is the division by
-- zero where there are no validators. The Gini coefficient, a float that is only reported, is left out.
pub mod Fairness
pub mod Rotation
use blbchain.Base.{
  ◌>>=◌, ℕ, zero, ◌+◌, ◌/◌, ◌%◌, Bool, true, false, not, Option, none, some, List, [], ◌∷◌, ltb,
  nat_beq, nat_eq, if◌then◌else◌, Map, lookup, insert, or_zero, length, get_or, map,
}
use blbchain.Base.Int.{ℤ, pos, negsuc, ◌+ℤ◌, ltb_ℤ}

pub record OrderManager : Type 0 where
  pub validators : List ℕ
  pub base_order : List ℕ
  pub current_epoch : ℕ
  pub fairness_score : Map ℕ ℤ

abbrev pub zero_scores : List ℕ → Map ℕ ℤ → Map ℕ ℤ
zero_scores [] scores = scores
zero_scores (v ∷ vs) scores = zero_scores vs (insert v (pos 0) scores)

unfoldable pub new_order_manager : List ℕ → OrderManager
unfolding insert
new_order_manager validators = record {
  validators = validators;
  base_order = validators;
  current_epoch = 0;
  fairness_score = zero_scores validators [];
}

unfoldable pub get_fairness_score : ℕ → OrderManager → ℤ
unfolding lookup
get_fairness_score v om = or_zero (lookup v om.fairness_score) (pos 0)

unfoldable pub get_all_scores : OrderManager → Map ℕ ℤ
get_all_scores om = om.fairness_score

unfoldable pub record_block : ℕ → Bool → OrderManager → OrderManager
unfolding insert get_fairness_score ◌+ℤ◌
record_block v was_in_turn om =
    let delta : ℤ = if was_in_turn then pos 1 else negsuc 0 in
    record om { fairness_score = insert v (get_fairness_score v om +ℤ delta) om.fairness_score }

unfoldable pub reset_scores : OrderManager → OrderManager
reset_scores om = record om { fairness_score = map (λ e. (e.0, pos 0)) om.fairness_score }

-- `sort.Slice` by a test that orders any two different validators, whose hashes differ, one way.
module _ (less : ℕ → ℕ → Bool) where
  unfoldable pub sorted_insert : ℕ → List ℕ → List ℕ
  sorted_insert v [] = v ∷ []
  sorted_insert v (w ∷ ws) =
      let rest = sorted_insert v ws in if less v w then v ∷ w ∷ ws else w ∷ rest

  unfoldable pub sort_slice : List ℕ → List ℕ
  unfolding sorted_insert
  sort_slice [] = []
  sort_slice (v ∷ vs) = sorted_insert v (sort_slice vs)

module _ (hash : ℕ → ℕ → ℕ) where
  -- The test that `updateOrderForEpoch` sorts by: a lower score first, then a lower hash.
  unfoldable pub comes_first : ℕ → OrderManager → ℕ → ℕ → Bool
  unfolding get_fairness_score
  comes_first epoch om v w =
      let a = get_fairness_score v om in
      let b = get_fairness_score w om in
      if ltb_ℤ a b then true else if ltb_ℤ b a then false else ltb (hash v epoch) (hash w epoch)

  unfoldable pub update_order_for_epoch : ℕ → OrderManager → OrderManager
  unfolding sort_slice comes_first
  update_order_for_epoch epoch om = record om {
    base_order = sort_slice (comes_first epoch om) om.validators;
  }

  unfoldable pub get_order_for_height : ℕ → OrderManager → Option (List ℕ × OrderManager)
  unfolding update_order_for_epoch
  get_order_for_height height om =
      let epoch = height / length om.validators in
      let om' =
        if not (nat_beq epoch om.current_epoch)
        then record (update_order_for_epoch epoch om) { current_epoch = epoch }
        else om in
      if nat_beq (length om.validators) 0 then none else some (om'.base_order, om')

  unfoldable pub get_in_turn_validator : ℕ → OrderManager → Option (ℕ × OrderManager)
  unfolding get_order_for_height
  get_in_turn_validator height om = do
    (order, om') ← get_order_for_height height om
    some (get_or order (height % length order) 0, om')
