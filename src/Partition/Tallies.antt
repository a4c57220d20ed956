-- ===== src/Partition/Tallies.antt =====
-- The counters of the shards: reads and writes in range.
use blbchain.Base.{
  ℕ, zero, suc, ◌<◌, ◌≡◌, refl, ap, ◌∙◌, String, string_eq, Bool, true, false, not, some, ◌>>=◌,
  Gives, Gives-bind, Gives-map, ◌&&◌, inl, inr, List, [], ◌∷◌, Map, nat_beq, if◌then◌else◌,
  Bool-cases, length, get_or, arith,
}
use blbchain.Base.Int.{ℤ, pos, negsuc, ◌+ℤ◌}
use blbchain.Partition.{add_at, read_at, shard_in, count_edges, count_all, add_halves}
use blbchain.Partition.Clpa.{recount}

-- The counters after `a[i] += d`.
abbrev pub Bumped : ℕ → ℤ → List ℤ → List ℤ → Type 0
Bumped i d xs ys =
    (length ys ≡ length xs)
    × ((j : ℕ)
        → get_or ys j (pos 0)
          ≡ (if nat_beq i j then get_or xs j (pos 0) +ℤ d else get_or xs j (pos 0)))

pub add_at-Bumped :
    (i : ℕ) (d : ℤ) (xs : List ℤ) → i < length xs → Gives (Bumped i d xs) (add_at i d xs)
unfolding add_at
add_at-Bumped i d [] h = absurd (omega arith)
add_at-Bumped zero d (x ∷ xs) h = (refl, at)
  where
    at :
        (j : ℕ)
        → get_or ((x +ℤ d) ∷ xs) j (pos 0)
          ≡ (if nat_beq 0 j then get_or (x ∷ xs) j (pos 0) +ℤ d else get_or (x ∷ xs) j (pos 0))
    at zero = refl
    at (suc j) = ground arith
add_at-Bumped (suc i) d (x ∷ xs) h =
    Gives-bind (Bumped i d xs) _ (add_at i d xs) (λ ys. some (x ∷ ys))
      (add_at-Bumped i d xs (omega arith)) (λ ys b. (ap suc b.0, at ys b))
  where
    at :
        (ys : List ℤ)
        → Bumped i d xs ys
        → (j : ℕ)
        → get_or (x ∷ ys) j (pos 0) ≡ (
            if nat_beq (suc i) j then get_or (x ∷ xs) j (pos 0) +ℤ d else get_or (x ∷ xs) j (pos 0))
    at ys b zero = ground arith
    at ys b (suc j) = b.1 j ∙ ground arith

pub read_at-Gives :
    (i : ℕ) (xs : List ℤ) → i < length xs → Gives (λ x. x ≡ get_or xs i (pos 0)) (read_at i xs)
read_at-Gives i [] h = absurd (omega arith)
read_at-Gives zero (x ∷ xs) h = refl
read_at-Gives (suc i) (x ∷ xs) h = read_at-Gives i xs (omega arith)

module _ (n : ℕ) where
  abbrev pub HasLength : List ℤ → Type 0
  HasLength xs = length xs ≡ n

  pub add_at-HasLength :
      (i : ℕ) (d : ℤ) (xs : List ℤ) → i < n → HasLength xs → Gives HasLength (add_at i d xs)
  add_at-HasLength i d xs small size =
      Gives-map (Bumped i d xs) HasLength (add_at i d xs) (add_at-Bumped i d xs (omega arith))
        (λ ys b. omega arith)

  -- Both tallies of `ComputeEdges2Shard`.
  abbrev pub HaveLength : List ℤ × List ℤ → Type 0
  HaveLength (edges, inter) = HasLength edges × HasLength inter

  pub recount-HasLength :
      (pm : Map String ℕ) (new old : ℕ)
      → new < n
      → old < n
      → (us : List String) (counts : List ℤ × ℤ) → HasLength counts.0
      → Gives (λ counts'. HasLength counts'.0) (recount pm new old us counts)
  unfolding recount
  recount-HasLength pm new old new_small old_small [] counts size = size
  recount-HasLength pm new old new_small old_small (u ∷ us) (edges, cross) size =
      Gives-bind Fits Fits _ _ (one (nat_beq (shard_in pm u) new) (nat_beq (shard_in pm u) old))
        (λ counts' size'. recount-HasLength pm new old new_small old_small us counts' size')
    where
      Fits : List ℤ × ℤ → Type 0
      Fits counts = HasLength counts.0

      one :
          (at_new at_old : Bool)
          → Gives Fits (
              if not at_new && not at_old
              then (add_at new (pos 1) edges >>= λ e.
                  add_at old (negsuc 0) e >>= λ e'. some (e', cross))
              else if at_new
              then (add_at old (negsuc 0) edges >>= λ e. some (e, cross +ℤ negsuc 0))
              else (add_at new (pos 1) edges >>= λ e. some (e, cross +ℤ pos 1)))
      one true at_old =
          Gives-bind HasLength Fits (add_at old (negsuc 0) edges) _
            (add_at-HasLength old (negsuc 0) edges old_small size) (λ e size'. size')
      one false true =
          Gives-bind HasLength Fits (add_at new (pos 1) edges) _
            (add_at-HasLength new (pos 1) edges new_small size) (λ e size'. size')
      one false false =
          Gives-bind HasLength Fits (add_at new (pos 1) edges) _
            (add_at-HasLength new (pos 1) edges new_small size)
            (λ e size'.
              Gives-bind HasLength Fits (add_at old (negsuc 0) e) _
                (add_at-HasLength old (negsuc 0) e old_small size') (λ e' size''. size''))

  module _ (pm : Map String ℕ) (small : (v : String) → shard_in pm v < n) where
    pub count_edges-HaveLength :
        (v_shard : ℕ) (us : List String) (counts : List ℤ × List ℤ)
        → HaveLength counts
        → Gives HaveLength (count_edges pm v_shard us counts)
    unfolding count_edges
    count_edges-HaveLength v_shard [] counts sizes = sizes
    count_edges-HaveLength v_shard (u ∷ us) (edges, inter) (e_size, i_size) =
        Gives-bind HaveLength HaveLength _ _
          (elim (Bool-cases (nat_beq v_shard (shard_in pm u))) [
            | inl t ↦ rw t (
                Gives-bind HasLength HaveLength (add_at (shard_in pm u) (pos 1) inter) _
                  (add_at-HasLength (shard_in pm u) (pos 1) inter (small u) i_size)
                  (λ i size. (e_size, size)))
            | inr f ↦ rw f (
                Gives-bind HasLength HaveLength (add_at (shard_in pm u) (pos 1) edges) _
                  (add_at-HasLength (shard_in pm u) (pos 1) edges (small u) e_size)
                  (λ e size. (size, i_size)))
          ])
          (λ counts sizes. count_edges-HaveLength v_shard us counts sizes)

    pub count_all-HaveLength :
        (edge_set : Map String (List String)) (counts : List ℤ × List ℤ)
        → HaveLength counts
        → Gives HaveLength (count_all pm edge_set counts)
    unfolding count_all
    count_all-HaveLength [] counts sizes = sizes
    count_all-HaveLength ((v, us) ∷ rest) counts sizes =
        Gives-bind HaveLength HaveLength (count_edges pm (shard_in pm v) us counts) _
          (count_edges-HaveLength (shard_in pm v) us counts sizes)
          (λ counts' sizes'. count_all-HaveLength rest counts' sizes')

pub length-add_halves : (edges inter : List ℤ) → length (add_halves edges inter) ≡ length edges
unfolding add_halves
length-add_halves [] inter = refl
length-add_halves (e ∷ edges) [] = refl
length-add_halves (e ∷ edges) (i ∷ inter) = ap suc (length-add_halves edges inter)
