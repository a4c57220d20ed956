-- ===== src/Partition/Members.antt =====
-- How many vertices a shard has, as a count over the graph's vertices, which the code keeps in a counter.
use blbchain.Base.{
  ℕ, ◌+◌, ◌≡◌, refl, sym, ap, ◌∙◌, String, string_eq, Bool, true, false, none, some, inl, inr, [],
  ◌∷◌, Map, HasKeysOnce, lookup, insert, lookup-insert_self, lookup-insert_ne, nat_beq,
  if◌then◌else◌, Bool-cases, ◌==◌, beq_flip, subst, is_some, arith,
}
use blbchain.Partition.{shard_in}

pub shard_in-insert_self : (pm : Map String ℕ) (v : String) (b : ℕ) → shard_in (insert v b pm) v ≡ b
unfolding shard_in
shard_in-insert_self pm v b = rw (lookup-insert_self v b pm) refl

pub shard_in-insert_ne :
    (pm : Map String ℕ) (v u : String) (b : ℕ)
    → (v == u) ≡ false
    → shard_in (insert v b pm) u ≡ shard_in pm u
unfolding shard_in
shard_in-insert_ne pm v u b h = rw (lookup-insert_ne v u b pm h) refl

unfoldable pub vertex_count : Map String ℕ → ℕ → Map String Bool → ℕ
unfolding shard_in
vertex_count pm j [] = 0
vertex_count pm j ((v, b) ∷ vs) =
    (if nat_beq (shard_in pm v) j then 1 else 0) + vertex_count pm j vs

lookup-first :
    (v u : String) (x : Bool) (vs : Map String Bool)
    → (u == v) ≡ true
    → lookup v ((u, x) ∷ vs) ≡ some x
unfolding lookup
lookup-first v u x vs t = rw t refl

lookup-rest :
    (v u : String) (x : Bool) (vs : Map String Bool)
    → (u == v) ≡ false
    → lookup v ((u, x) ∷ vs) ≡ lookup v vs
unfolding lookup
lookup-rest v u x vs f = rw f refl

-- A vertex outside the graph counts nowhere.
pub vertex_count-insert_absent :
    (pm : Map String ℕ) (v : String) (b j : ℕ) (vs : Map String Bool)
    → lookup v vs ≡ none
    → vertex_count (insert v b pm) j vs ≡ vertex_count pm j vs
unfolding vertex_count lookup
vertex_count-insert_absent pm v b j [] absent = refl
vertex_count-insert_absent pm v b j ((u, x) ∷ vs) absent = elim (Bool-cases (u == v)) [
  | inl t ↦ absurd (some≢none (sym (lookup-first v u x vs t) ∙ absent))
  | inr f ↦
      rw
        (
          shard_in-insert_ne pm v u b (beq_flip u v f),
          vertex_count-insert_absent pm v b j vs (sym (lookup-rest v u x vs f) ∙ absent),
        )
        refl
]
  where
    some≢none : ¬ (some x ≡ none)
    some≢none h = cc

-- A vertex of the graph counts where it goes, and no longer where it was.
pub vertex_count-insert :
    (pm : Map String ℕ) (v : String) (b j : ℕ) (vs : Map String Bool)
    → HasKeysOnce vs
    → is_some (lookup v vs) ≡ true
    → vertex_count (insert v b pm) j vs + (if nat_beq (shard_in pm v) j then 1 else 0)
      ≡ vertex_count pm j vs + (if nat_beq b j then 1 else 0)
unfolding vertex_count lookup
vertex_count-insert pm v b j [] once present = cc
vertex_count-insert pm v b j ((u, x) ∷ vs) (new, once) present = elim (Bool-cases (u == v)) [
  | inl t ↦
      rw
        (
          (string_eq.equals_iff u v).0 t,
          shard_in-insert_self pm v b,
          vertex_count-insert_absent pm v b j vs
              (subst (λ w. lookup w vs ≡ none) ((string_eq.equals_iff u v).0 t) new),
        )
        (omega arith)
  | inr f ↦ rw (shard_in-insert_ne pm v u b (beq_flip u v f)) (
      omega (
        arith,
        vertex_count-insert pm v b j vs once (sym (ap is_some (lookup-rest v u x vs f)) ∙ present),
      ))
]
