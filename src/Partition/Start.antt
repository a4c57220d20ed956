-- ===== src/Partition/Start.antt =====
-- `Stable_Init_Partition` of partition/partition_CLPA.go: the vertices are dealt out to the shards in turn.
use blbchain.Base.{
  ℕ, zero, suc, ◌+◌, ◌-◌, min, ◌%◌, ◌<◌, ◌≤◌, ◌≡◌, refl, sym, ap, ◌∙◌, subst, String, string_eq,
  Bool, true, false, Option, none, some, ◌>>=◌, inl, inr, List, [], ◌∷◌, Gives, Gives-bind,
  Gives-map, Gives-if, All, get_or, length, replicate, length-replicate, Map, HasKeysOnce, lookup,
  insert, ◌==◌, nat_beq, ltb, if◌then◌else◌, Bool-cases, arith,
}
use native.Mathlib.Nat.{mod-eq_of_lt}
use blbchain.Base.Int.{ℤ, pos}
use blbchain.Partition.{ClpaState, add_at, shard_in, shard_of, compute_edges2shard}
use blbchain.Partition.Tallies.{Bumped, add_at-Bumped}
use blbchain.Partition.Members.{vertex_count, shard_in-insert_self, shard_in-insert_ne}
use blbchain.Partition.Growth.{entered_counter}
use blbchain.Partition.Sound.{
  IsSound, All-insert, shard_in-small, Retallied, compute_edges2shard-Retallied,
}

-- The loop over the vertices, with its counter `cnt`.
unfoldable pub stable_loop :
    ℕ → ℕ → Map String Bool → Map String ℕ → List ℤ → Option (Map String ℕ × List ℤ)
unfolding insert add_at
stable_loop n cnt [] pm counts = some (pm, counts)
stable_loop n cnt ((v, b) ∷ vs) pm counts =
    if nat_beq n 0
    then none
    else (add_at (cnt % n) (pos 1) counts >>= λ counts'.
        stable_loop n (suc cnt) vs (insert v (cnt % n) pm) counts')

-- The error that the function returns, or the state that it leaves.
pub data Initialised (F : Type 0) : Type 0 where
  too_many_shards : Initialised F
  initialised : ClpaState F → Initialised F

unfoldable pub stable_init_partition : {F : Type 0} → ClpaState F → Option (Initialised F)
unfolding stable_loop compute_edges2shard
stable_init_partition cs =
    if ltb (length cs.net_graph.vertex_set) cs.shard_num then some too_many_shards else (do
      (pm, counts) ←
          stable_loop cs.shard_num 0 cs.net_graph.vertex_set [] (replicate cs.shard_num (pos 0))
      cs' ← compute_edges2shard (record cs { partition_map = pm; vertexs_num_in_shard = counts })
      some (initialised cs'))

-- How often the shard `j` has its turn, for `m` vertices from the one numbered `cnt` on.
turns : ℕ → ℕ → ℕ → ℕ → ℕ
turns n cnt zero j = 0
turns n cnt (suc m) j = (if nat_beq (cnt % n) j then 1 else 0) + turns n (suc cnt) m j

turns-reach : (n cnt m j : ℕ) → j < n → cnt ≤ j → j < cnt + m → 1 ≤ turns n cnt m j
unfolding turns
turns-reach n cnt zero j small low high = absurd (omega arith)
turns-reach n cnt (suc m) j small low high = elim (Bool-cases (nat_beq cnt j)) [
  | inl t ↦ now (same cnt j t)
  | inr f ↦ later (turns-reach n (suc cnt) m j small (ground arith) (omega arith))
]
  where
    turn : cnt ≡ j → cnt % n ≡ j
    turn h = mod-eq_of_lt (omega (arith, h)) ∙ h

    same : (a b : ℕ) → nat_beq a b ≡ true → a ≡ b
    same a b h = ground arith

    nat_beq-refl : (a : ℕ) → nat_beq a a ≡ true
    nat_beq-refl a = ground arith

    now : cnt ≡ j → 1 ≤ turns n cnt (suc m) j
    now h = rw (turn h, nat_beq-refl j) (omega arith)

    later : 1 ≤ turns n (suc cnt) m j → 1 ≤ turns n cnt (suc m) j
    later h = omega (arith, h)

-- What the loop leaves, where the counters were those of `c`.
abbrev Dealt : ℕ → ℕ → Map String Bool → Map String ℕ → (ℕ → ℕ) → Map String ℕ × List ℤ → Type 0
Dealt n cnt vs pm c (pm', counts') =
    (length counts' ≡ n)
    × All (λ e. e.1 < n) pm'
    × ((u : String) → lookup u vs ≡ none → shard_in pm' u ≡ shard_in pm u)
    × ((j : ℕ) → get_or counts' j (pos 0) ≡ pos (c j + vertex_count pm' j vs))
    × ((j : ℕ) → vertex_count pm' j vs ≡ turns n cnt (length vs) j)

stable_loop-Dealt :
    (n cnt : ℕ) (vs : Map String Bool) (pm : Map String ℕ) (counts : List ℤ) (c : ℕ → ℕ)
    → 0 < n
    → HasKeysOnce vs
    → length counts ≡ n
    → All (λ e. e.1 < n) pm
    → ((j : ℕ) → get_or counts j (pos 0) ≡ pos (c j))
    → Gives (Dealt n cnt vs pm c) (stable_loop n cnt vs pm counts)
unfolding stable_loop vertex_count turns
stable_loop-Dealt n cnt [] pm counts c some_shards once size small told =
    (size, small, (λ u absent. refl), (λ j. told j ∙ ap pos (omega arith)), λ j. refl)
stable_loop-Dealt n cnt ((v, b) ∷ vs) pm counts c some_shards (new, once) size small told =
    Gives-if (Dealt n cnt ((v, b) ∷ vs) pm c) (nat_beq n 0) none _ (λ h. absurd (ground arith))
      (λ _.
        Gives-bind (Bumped s (pos 1) counts) (Dealt n cnt ((v, b) ∷ vs) pm c)
          (add_at s (pos 1) counts) _
          (add_at-Bumped s (pos 1) counts (subst (λ m. s < m) (sym size) s_small))
          (λ counts' bumped.
            Gives-map (Dealt n (suc cnt) vs (insert v s pm) c') (Dealt n cnt ((v, b) ∷ vs) pm c) _
              (stable_loop-Dealt n (suc cnt) vs (insert v s pm) counts' c' some_shards once
                (bumped.0 ∙ size) (All-insert n v s pm s_small small)
                (λ j. entered_counter (c j) (c' j) (nat_beq s j) _ _ (told j) (bumped.1 j) refl))
              (λ (pm', counts'') (size', small', kept, counted, turned).
                let at_v = kept v new ∙ shard_in-insert_self pm v s in
                (
                  size',
                  small',
                  kept_on pm' kept,
                  (λ j. counted j ∙ rw at_v (ap pos (omega arith))),
                  λ j. rw (at_v, turned j) refl,
                ))))
  where
    kept_on :
        (pm' : Map String ℕ)
        → ((u : String) → lookup u vs ≡ none → shard_in pm' u ≡ shard_in (insert v (cnt % n) pm) u)
        → (u : String) → lookup u ((v, b) ∷ vs) ≡ none
        → shard_in pm' u ≡ shard_in pm u
    kept_on pm' kept u absent = elim (Bool-cases (v == u)) [
      | inl t ↦ absurd (found≢none (rw t refl) absent)
      | inr f ↦ kept u (sym (rest f) ∙ absent) ∙ shard_in-insert_ne pm v u (cnt % n) f
    ]
      where
        found≢none : lookup u ((v, b) ∷ vs) ≡ some b → ¬ (lookup u ((v, b) ∷ vs) ≡ none)
        found≢none h g = cc

        rest : (v == u) ≡ false → lookup u ((v, b) ∷ vs) ≡ lookup u vs
        rest f = rw f refl

    s : ℕ
    s = cnt % n

    s_small : s < n
    s_small = omega arith

    c' : ℕ → ℕ
    c' j = c j + (if nat_beq s j then 1 else 0)

replicate-zero : (n j : ℕ) → get_or (replicate n (pos 0)) j (pos 0) ≡ pos 0
replicate-zero zero j = refl
replicate-zero (suc n) zero = refl
replicate-zero (suc n) (suc j) = replicate-zero n j

module _ {F : Type 0} where
  -- What the error and the new state say of the old one.
  abbrev pub Started : ClpaState F → Initialised F → Type 0
  Started cs too_many_shards = length cs.net_graph.vertex_set < cs.shard_num
  Started cs (initialised done) =
      (cs.shard_num ≤ length cs.net_graph.vertex_set)
      × IsSound done
      × (done.net_graph ≡ cs.net_graph)
      × (done.shard_num ≡ cs.shard_num)
      × ((j : ℕ)
          → min 1 (cs.shard_num - j) ≤ vertex_count done.partition_map j done.net_graph.vertex_set)

  -- On a state with at least one shard, whose graph lists each vertex once, the stable initial partition
  -- never panics. It returns its error only when there are fewer vertices than shards; otherwise there are
  -- enough, the counters of the new state are exact and its shards in range, the graph and the number of
  -- shards are unchanged, and every shard has at least one vertex.
  pub stable_init_partition-Started :
      (cs : ClpaState F)
      → 0 < cs.shard_num
      → HasKeysOnce cs.net_graph.vertex_set
      → Gives (Started cs) (stable_init_partition cs)
  unfolding stable_init_partition shard_of
  stable_init_partition-Started cs some_shards once =
      let n = cs.shard_num in
      let vs = cs.net_graph.vertex_set in
      Gives-if (Started cs) (ltb (length vs) n) _ _ (λ few. ground arith)
        (λ enough.
          Gives-bind (Dealt n 0 vs [] (λ _. 0)) (Started cs)
            (stable_loop n 0 vs [] (replicate n (pos 0))) _
            (stable_loop-Dealt n 0 vs [] (replicate n (pos 0)) (λ _. 0) some_shards once
              (length-replicate n (pos 0)) tt (λ j. replicate-zero n j))
            (λ (pm, counts) (size, small, kept, counted, turned).
              Gives-bind (Retallied (dealt pm counts)) (Started cs)
                (compute_edges2shard (dealt pm counts)) _
                (compute_edges2shard-Retallied (dealt pm counts)
                  (λ v. shard_in-small n pm some_shards small v))
                (λ done (edges, cross, least, _, is).
                  subst (λ c. Started cs (initialised c)) (sym is)
                    (
                      ground arith,
                      record {
                        has_shards = some_shards;
                        in_range = small;
                        vertices_once = once;
                        counters_length = size;
                        counters = λ j. counted j ∙ ap pos (omega arith);
                      },
                      refl,
                      refl,
                      (λ j. reach n j _ (λ few.
                          subst (λ m. 1 ≤ m) (sym (turned j))
                            (turns-reach n 0 (length vs) j few (omega arith)
                              (omega (arith, all_shards enough few))))),
                    ))))
    where
      reach : (n j x : ℕ) → (j < n → 1 ≤ x) → min 1 (n - j) ≤ x
      reach n j x h = elim (Bool-cases (ltb j n)) [
        | inl t ↦ omega (arith, h (ground arith))
        | inr f ↦ ground arith
      ]

      all_shards :
          {j : ℕ}
          → ltb (length cs.net_graph.vertex_set) cs.shard_num ≡ false
          → j < cs.shard_num
          → j < length cs.net_graph.vertex_set
      all_shards f h = ground arith

      dealt : Map String ℕ → List ℤ → ClpaState F
      dealt pm counts = record cs { partition_map = pm; vertexs_num_in_shard = counts }
