-- ===== src/Message/Codec.antt =====
-- Splitting a merged message.
use blbchain.Base.{
  ℕ, zero, suc, ◌+◌, ◌-◌, ◌≤◌, ◌≡◌, ◌≢◌, refl, sym, ap, ap₂, ◌∙◌, true, false, not, some, >>=-some,
  [], ◌∷◌, ◌++◌, append_assoc, Bytes, ltb, lt→ltb, nat_beq, length, length-append, set, take, drop,
  filterb, replicate, length-replicate, All, arith,
}
use blbchain.Message.{write_type, merge_message, split_message}

set-append :
    (pre : Bytes) (x v : ℕ) (xs : Bytes) → set (pre ++ x ∷ xs) (length pre) v ≡ pre ++ v ∷ xs
set-append [] x v xs = refl
set-append (p ∷ pre) x v xs = ap (◌∷◌ p) (set-append pre x v xs)

same_pad :
    (pre : Bytes) (j k : ℕ) → j ≡ k → some (pre ++ replicate j 0) ≡ some (pre ++ replicate k 0)
same_pad pre j k e = ap (λ n. some (pre ++ replicate n 0)) e

same_pad' :
    (pre vs : Bytes) (j k : ℕ)
    → j ≡ k
    → some (pre ++ (vs ++ replicate j 0)) ≡ some (pre ++ (vs ++ replicate k 0))
same_pad' pre vs j k e = ap (λ n. some (pre ++ (vs ++ replicate n 0))) e

write_type-append :
    (pre vs : Bytes) (k : ℕ)
    → length vs ≤ k
    → write_type (length pre) vs (pre ++ replicate k 0)
      ≡ some (pre ++ (vs ++ replicate (k - length vs) 0))
unfolding write_type
write_type-append pre [] k h = same_pad pre k (k - 0) (omega arith)
write_type-append pre (v ∷ vs) zero h = elim h [ ]
write_type-append pre (v ∷ vs) (suc k) h =
    let inside : ltb (length pre) (length (pre ++ 0 ∷ replicate k 0)) ≡ true =
      lt→ltb _ _ (omega (arith, length-append pre (0 ∷ replicate k 0))) in
    let longer : length pre + 1 ≡ length (pre ++ v ∷ []) =
      omega (arith, length-append pre (v ∷ [])) in
    rw inside (
      ap (λ b. write_type (length pre + 1) vs b)
        (set-append pre 0 v (replicate k 0) ∙ sym (append_assoc pre (v ∷ []) (replicate k 0)))
      ∙ ap (λ i. write_type i vs ((pre ++ v ∷ []) ++ replicate k 0)) longer
      ∙ write_type-append (pre ++ v ∷ []) vs k (omega arith)
      ∙ same_pad' (pre ++ v ∷ []) vs (k - length vs) (suc k - suc (length vs)) (omega arith)
      ∙ ap some (append_assoc pre (v ∷ []) _))

take-length : (xs ys : Bytes) → take (length xs) (xs ++ ys) ≡ xs
take-length [] ys = refl
take-length (x ∷ xs) ys = ap (◌∷◌ x) (take-length xs ys)

drop-length : (xs ys : Bytes) → drop (length xs) (xs ++ ys) ≡ ys
drop-length [] ys = refl
drop-length (x ∷ xs) ys = drop-length xs ys

filterb-zeros : (k : ℕ) → filterb (λ v. not (nat_beq v 0)) (replicate k 0) ≡ []
filterb-zeros zero = refl
filterb-zeros (suc k) = filterb-zeros k

filterb-pad :
    (vs : Bytes) (k : ℕ)
    → All (λ v. v ≢ 0) vs
    → filterb (λ v. not (nat_beq v 0)) (vs ++ replicate k 0) ≡ vs
filterb-pad [] k h = filterb-zeros k
filterb-pad (v ∷ vs) k h = ground (arith, h.0, filterb-pad vs k h.1)

-- A type of at most 30 bytes without a zero byte can be put in front of any content, and splitting the
-- message gives both back.
pub split_message-merge_message :
    (msg_type content : Bytes)
    → length msg_type ≤ 30
    → All (λ v. v ≢ 0) msg_type
    → (m : Bytes) × (merge_message msg_type content ≡ some m)
      × (split_message m ≡ some (msg_type, content))
unfolding merge_message split_message
split_message-merge_message msg_type content short clean =
    let padded : Bytes = msg_type ++ replicate (30 - length msg_type) 0 in
    let long : length padded ≡ 30 = omega (
      arith,
      length-append msg_type (replicate (30 - length msg_type) 0),
      length-replicate {A = ℕ} (30 - length msg_type) 0,
    ) in
    let enough : ltb (length (padded ++ content)) 30 ≡ false =
      ground (arith, length-append padded content, long) in
    (
      padded ++ content,
      >>=-some (write_type 0 msg_type (replicate 30 0)) _ (write_type-append [] msg_type 30 short),
      rw enough (
          ap₂ (λ (a b : Bytes). some (filterb (λ v. not (nat_beq v 0)) a, b))
            (ap (λ n. take n (padded ++ content)) (sym long) ∙ take-length padded content)
            (ap (λ n. drop n (padded ++ content)) (sym long) ∙ drop-length padded content)
          ∙ ap (λ a. some (a, content)) (filterb-pad msg_type (30 - length msg_type) clean)),
    )
