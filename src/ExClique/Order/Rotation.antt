-- ===== src/ExClique/Order/Rotation.antt =====
-- The turns of an epoch, with blocks recorded in between.
use blbchain.Base.{
  ◌>>=◌, >>=-some, subst, ℕ, zero, suc, ◌+◌, ◌*◌, ◌/◌, ◌%◌, ◌<◌, ◌≡◌, refl, sym, ap, ◌∙◌, inl, inr,
  Bool, true, false, Option, some, List, [], ◌∷◌, Perm, nat_beq, nat_beq_iff, Bool-cases, length,
  get_or, drop, arith,
}
use mathlib.Core.List.Perm
use blbchain.ExClique.Order.{
  OrderManager, record_block, get_order_for_height, get_in_turn_validator, new_order_manager,
  sorted_insert, sort_slice, comes_first,
}
use blbchain.ExClique.Order.Fairness.{sort_slice-Perm}
use native.Mathlib.Nat.{mul-add-div_right, mul-add-mod_self_right, div-eq_of_lt, mod-eq_of_lt}

abbrev record_blocks : List (ℕ × Bool) → OrderManager → OrderManager
record_blocks [] om = om
record_blocks ((v, in_turn) ∷ rest) om = record_blocks rest (record_block v in_turn om)

-- The order has the validators, and there are some.
pub record IsOrdered (om : OrderManager) : Type 0 where
  pub some_there : 0 < length om.validators
  pub same : Perm om.base_order om.validators
  pub long : length om.base_order ≡ length om.validators

length-sorted_insert :
    (less : ℕ → ℕ → Bool) (v : ℕ) (ws : List ℕ) → length (sorted_insert less v ws) ≡ suc (length ws)
unfolding sorted_insert
length-sorted_insert less v [] = refl
length-sorted_insert less v (w ∷ ws) = ground (arith, length-sorted_insert less v ws)

length-sort_slice : (less : ℕ → ℕ → Bool) (vs : List ℕ) → length (sort_slice less vs) ≡ length vs
unfolding sort_slice
length-sort_slice less [] = refl
length-sort_slice less (v ∷ vs) =
    length-sorted_insert less v (sort_slice less vs) ∙ ap suc (length-sort_slice less vs)

pub new_order_manager-IsOrdered : (vs : List ℕ) → 0 < length vs → IsOrdered (new_order_manager vs)
unfolding new_order_manager
new_order_manager-IsOrdered vs h = record { some_there = h; same = Perm.refl vs; long = refl }

-- The manager has settled on an order for an epoch of n heights.
record Settled (epoch n : ℕ) (order : List ℕ) (om : OrderManager) : Type 0 where
  at_epoch : om.current_epoch ≡ epoch
  ordered : om.base_order ≡ order
  counted : length om.validators ≡ n
  long : length order ≡ n

Settled-record_block :
    (epoch n : ℕ) (order : List ℕ) (v : ℕ) (in_turn : Bool) (om : OrderManager)
    → Settled epoch n order om
    → Settled epoch n order (record_block v in_turn om)
unfolding record_block
Settled-record_block epoch n order v in_turn om s = record {
  at_epoch = s.at_epoch;
  ordered = s.ordered;
  counted = s.counted;
  long = s.long;
}

Settled-record_blocks :
    (epoch n : ℕ) (order : List ℕ) (recs : List (ℕ × Bool)) (om : OrderManager)
    → Settled epoch n order om
    → Settled epoch n order (record_blocks recs om)
Settled-record_blocks epoch n order [] om s = s
Settled-record_blocks epoch n order ((v, in_turn) ∷ rest) om s =
    Settled-record_blocks epoch n order rest (record_block v in_turn om)
      (Settled-record_block epoch n order v in_turn om s)

drop-get_or : (k : ℕ) (xs : List ℕ) → k < length xs → get_or xs k 0 ∷ drop (suc k) xs ≡ drop k xs
drop-get_or k [] h = elim h [ ]
drop-get_or zero (x ∷ xs) h = refl
drop-get_or (suc k) (x ∷ xs) h = drop-get_or k xs (omega arith)

drop-length : (xs : List ℕ) (k : ℕ) → length xs ≡ k → drop k xs ≡ []
drop-length [] zero h = refl
drop-length [] (suc k) h = refl
drop-length (x ∷ xs) zero h = absurd (omega arith)
drop-length (x ∷ xs) (suc k) h = drop-length xs k (omega arith)

div_height : (epoch n k : ℕ) → k < n → (epoch * n + k) / n ≡ epoch
div_height epoch n k h = mul-add-div_right (omega arith) epoch k ∙ omega (arith, div-eq_of_lt h)

mod_height : (epoch n k : ℕ) → k < n → (epoch * n + k) % n ≡ k
mod_height epoch n k h = mul-add-mod_self_right epoch n k ∙ mod-eq_of_lt h

module _ (hash : ℕ → ℕ → ℕ) where
  -- A query in the epoch that the manager has settled on changes nothing.
  in_turn-Settled :
      (epoch n : ℕ) (order : List ℕ) (height : ℕ) (om : OrderManager)
      → Settled epoch n order om
      → 0 < n
      → height / n ≡ epoch
      → get_in_turn_validator hash height om ≡ some (get_or order (height % n) 0, om)
  unfolding get_in_turn_validator
  in_turn-Settled epoch n order height om s some_there there =
      let full : nat_beq (length om.validators) 0 ≡ false = ground (arith, s.counted) in
      let same : nat_beq (height / length om.validators) om.current_epoch ≡ true =
        (nat_beq_iff _ _).1 (ap (λ m. height / m) s.counted ∙ there ∙ sym s.at_epoch) in
      >>=-some (get_order_for_height hash height om) _
        (unfold get_order_for_height in (rw (full, same) refl))
      ∙ ap (λ o. some (get_or o (height % length o) 0, om)) s.ordered
      ∙ ap (λ m. some (get_or order (height % m) 0, om)) s.long

  -- Any query settles the manager on an order of the validators for the height's epoch.
  first_query :
      (height : ℕ) (om : OrderManager)
      → IsOrdered om
      → (order : List ℕ) × (om' : OrderManager) × (get_in_turn_validator hash height om
          ≡ some (get_or order (height % length om.validators) 0, om'))
        × Settled (height / length om.validators) (length om.validators) order om'
        × Perm order om.validators
  unfolding get_in_turn_validator
  first_query height om v =
      let full : nat_beq (length om.validators) 0 ≡ false = ground (arith, v.some_there) in
      let sorting = comes_first hash (height / length om.validators) om in
      let settled : OrderManager = record om {
        base_order = sort_slice sorting om.validators;
        current_epoch = height / length om.validators;
      } in
      elim (Bool-cases (nat_beq (height / length om.validators) om.current_epoch)) [
        | inl t ↦ (
          om.base_order,
          om,
          (>>=-some (get_order_for_height hash height om) _
                (unfold get_order_for_height in (rw (full, t) refl))
              ∙ ap (λ m. some (get_or om.base_order (height % m) 0, om)) v.long),
          record {
            at_epoch = sym ((nat_beq_iff _ _).0 t);
            ordered = refl;
            counted = refl;
            long = v.long;
          },
          v.same,
        )
        | inr f ↦ (
          sort_slice sorting om.validators,
          settled,
          >>=-some (get_order_for_height hash height om) _
                (unfold get_order_for_height in (rw (full, f) refl))
              ∙ (ap (λ m. some (get_or (sort_slice sorting om.validators) (height % m) 0, settled))
                  (length-sort_slice sorting om.validators)),
          record {
            at_epoch = refl;
            ordered = refl;
            counted = refl;
            long = length-sort_slice sorting om.validators;
          },
          sort_slice-Perm sorting om.validators,
        )
      ]

module _ (hash : ℕ → ℕ → ℕ) (recorded : ℕ → List (ℕ × Bool)) where
  -- Who is in turn at each of some heights, with blocks recorded after each.
  pub turns : ℕ → ℕ → OrderManager → Option (List ℕ × OrderManager)
  turns zero height om = some ([], om)
  turns (suc n) height om = do
    (v, om') ← get_in_turn_validator hash height om
    (vs, om'') ← turns n (height + 1) (record_blocks (recorded height) om')
    some (v ∷ vs, om'')

  turns-Settled :
      (epoch n : ℕ) (order : List ℕ) (j k : ℕ) (om : OrderManager)
      → Settled epoch n order om
      → 0 < n
      → k + j ≡ n
      → (om' : OrderManager) × (turns j (epoch * n + k) om ≡ some (drop k order, om'))
  unfolding turns
  turns-Settled epoch n order zero k om s some_there e =
      (om, ap (λ o. some (o, om)) (sym (drop-length order k (s.long ∙ sym e ∙ omega arith))))
  turns-Settled epoch n order (suc j) k om s some_there e =
      let height = epoch * n + k in
      let inside : k < n = omega arith in
      let (om', later) =
        turns-Settled epoch n order j (suc k) (record_blocks (recorded height) om)
          (Settled-record_blocks epoch n order (recorded height) om s) some_there (omega arith) in
      let here : get_in_turn_validator hash height om ≡ some (get_or order k 0, om) =
        in_turn-Settled hash epoch n order height om s some_there (div_height epoch n k inside)
        ∙ ap (λ i. some (get_or order i 0, om)) (mod_height epoch n k inside) in
      let moved : epoch * n + suc k ≡ height + 1 = omega arith in
      (
        om',
        >>=-some (get_in_turn_validator hash height om) _ here
            ∙ >>=-some (turns j (height + 1) (record_blocks (recorded height) om)) _ (
                subst
                  (λ h.
                    turns j h (record_blocks (recorded height) om) ≡ some (drop (suc k) order, om'))
                  moved later)
            ∙ ap (λ o. some (o, om')) (drop-get_or k order (omega (arith, s.long))),
      )

  turns_from :
      (epoch n : ℕ) (om : OrderManager)
      → IsOrdered om
      → length om.validators ≡ n
      → (vs : List ℕ) × (om' : OrderManager) × (turns n (epoch * n) om ≡ some (vs, om'))
        × Perm vs om.validators
  unfolding turns
  turns_from epoch zero om v e = absurd (omega (arith, v.some_there))
  turns_from epoch (suc j) om v e =
      let n = suc j in
      let height = epoch * n in
      let (order, om', query, settled, same) = first_query hash height om v in
      let start : height ≡ epoch * n + 0 = omega arith in
      let s : Settled epoch n order om' =
        subst (λ h. Settled h n order om')
          (ap (λ h. h / n) start ∙ div_height epoch n 0 (omega arith))
          (subst (λ m. Settled (height / m) m order om') e settled) in
      let here : get_in_turn_validator hash height om ≡ some (get_or order 0 0, om') =
        query
        ∙ ap (λ m. some (get_or order (height % m) 0, om')) e
        ∙ ap (λ i. some (get_or order i 0, om'))
            (ap (λ h. h % n) start ∙ mod_height epoch n 0 (omega arith)) in
      let (om'', later) =
        turns-Settled epoch n order j 1 (record_blocks (recorded height) om')
          (Settled-record_blocks epoch n order (recorded height) om' s) (omega arith)
          (omega arith) in
      (
        order,
        om'',
        >>=-some (get_in_turn_validator hash height om) _ here
            ∙ >>=-some (turns j (height + 1) (record_blocks (recorded height) om')) _ later
            ∙ ap (λ o. some (o, om'')) (drop-get_or 0 order (omega (arith, s.long))),
        same,
      )

  -- From the first height of an epoch on, with any blocks recorded in between, each validator is in
  -- turn at exactly one of the epoch's heights, and the queries do not panic.
  pub turns-Perm :
      (epoch : ℕ) (om : OrderManager)
      → IsOrdered om
      → (vs : List ℕ) × (om' : OrderManager) × (turns
            (length om.validators)
            (epoch * length om.validators)
            om
          ≡ some (vs, om'))
        × Perm vs om.validators
  turns-Perm epoch om v = turns_from epoch (length om.validators) om v refl
