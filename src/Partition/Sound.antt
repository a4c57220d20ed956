-- ===== src/Partition/Sound.antt =====
-- What the algorithm relies on: every vertex in a shard that exists, and the counters of the shards.
use blbchain.Base.{
  ℕ, ◌<◌, ◌≡◌, refl, ◌∙◌, String, string_eq, nat_eq, Bool, true, false, inl, inr, List, [], ◌∷◌,
  Gives, Gives-bind, All, get_or, length, replicate, length-replicate, Map, HasKeysOnce, lookup,
  insert, if◌then◌else◌, Bool-cases, ◌==◌, is_some, arith,
}
use blbchain.Base.Int.{ℤ, pos}
use blbchain.Partition.{
  neighbours, Floats, ClpaState, shard_in, shard_of, count_all, add_halves, min_ints, max_int,
  sum_ints, half, compute_edges2shard,
}
use blbchain.Partition.Clpa.{
  recount, change_shard_recompute, get_shard_score, best_loop, best_shard,
}
use blbchain.Partition.Tallies.{
  HasLength, HaveLength, count_all-HaveLength, recount-HasLength, length-add_halves, read_at-Gives,
}
use blbchain.Partition.Members.{vertex_count}

-- For `n` shards: every vertex is in one of them, and each shard's counter is the number of its vertices.
pub record SoundAt (n : ℕ) (vs : Map String Bool) (pm : Map String ℕ) (counts : List ℤ)
    : Type 0 where
  pub has_shards : 0 < n
  pub in_range : All (λ e. e.1 < n) pm
  pub vertices_once : HasKeysOnce vs
  pub counters_length : length counts ≡ n
  pub counters : (j : ℕ) → get_or counts j (pos 0) ≡ pos (vertex_count pm j vs)

pub All-insert :
    (n : ℕ) (v : String) (b : ℕ) (pm : Map String ℕ)
    → b < n
    → All (λ e. e.1 < n) pm
    → All (λ e. e.1 < n) (insert v b pm)
unfolding insert
All-insert n v b [] small all = (small, tt)
All-insert n v b ((u, s) ∷ pm) small (first, rest) = elim (Bool-cases (u == v)) [
  | inl t ↦ rw t (small, rest)
  | inr f ↦ rw f (first, All-insert n v b pm small rest)
]

pub shard_in-small :
    (n : ℕ) (pm : Map String ℕ) → 0 < n → All (λ e. e.1 < n) pm → (v : String) → shard_in pm v < n
unfolding shard_in lookup
shard_in-small n [] h all v = h
shard_in-small n ((u, s) ∷ pm) h (first, rest) v = elim (Bool-cases (u == v)) [
  | inl t ↦ rw t first
  | inr f ↦ rw f (shard_in-small n pm h rest v)
]

module _ {F : Type 0} where
  abbrev pub IsSound : ClpaState F → Type 0
  IsSound cs = SoundAt cs.shard_num cs.net_graph.vertex_set cs.partition_map cs.vertexs_num_in_shard

  pub IsSound-small : (cs : ClpaState F) → IsSound cs → (v : String) → shard_of cs v < cs.shard_num
  unfolding shard_of
  IsSound-small cs sound =
      shard_in-small cs.shard_num cs.partition_map sound.has_shards sound.in_range

  -- The state with other sums of edges.
  abbrev pub retally : List ℤ → ℤ → ℤ → ClpaState F → ClpaState F
  retally edges cross least cs = record cs {
    edges2shard = edges;
    cross_shard_edge_num = cross;
    min_edges2shard = least;
  }

  abbrev pub Retallied : ClpaState F → ClpaState F → Type 0
  Retallied cs cs' =
      (edges : List ℤ) × (cross : ℤ) × (least : ℤ) × (length edges ≡ cs.shard_num)
      × (cs' ≡ retally edges cross least cs)

  pub compute_edges2shard-Retallied :
      (cs : ClpaState F)
      → ((v : String) → shard_of cs v < cs.shard_num)
      → Gives (Retallied cs) (compute_edges2shard cs)
  unfolding compute_edges2shard shard_of
  compute_edges2shard-Retallied cs small =
      let zeros = replicate cs.shard_num (pos 0) in
      let size = length-replicate cs.shard_num (pos 0) in
      Gives-bind (HaveLength cs.shard_num) (Retallied cs)
        (count_all cs.partition_map cs.net_graph.edge_set (zeros, zeros)) _
        (count_all-HaveLength cs.shard_num cs.partition_map small cs.net_graph.edge_set
          (zeros, zeros) (size, size))
        (λ (edges, inter) sizes. (
          add_halves edges inter,
          half (sum_ints edges (pos 0)),
          min_ints (add_halves edges inter) max_int,
          length-add_halves edges inter ∙ sizes.0,
          refl,
        ))

  pub change_shard_recompute-Retallied :
      (v : String) (old : ℕ) (cs : ClpaState F)
      → shard_of cs v < cs.shard_num
      → old < cs.shard_num
      → length cs.edges2shard ≡ cs.shard_num
      → Gives (Retallied cs) (change_shard_recompute v old cs)
  unfolding change_shard_recompute
  change_shard_recompute-Retallied v old cs new_small old_small size =
      Gives-bind (λ counts. HasLength cs.shard_num counts.0) (Retallied cs)
        (recount cs.partition_map (shard_of cs v) old (neighbours v cs.net_graph)
          (cs.edges2shard, cs.cross_shard_edge_num))
        _
        (recount-HasLength cs.shard_num cs.partition_map (shard_of cs v) old new_small old_small _ _
          size)
        (λ counts size'. (counts.0, counts.1, min_ints counts.0 max_int, size', refl))

  module _ (ops : Floats F) (cs : ClpaState F) (v : String)
      (small : (u : String) → shard_of cs u < cs.shard_num)
      (size : length cs.edges2shard ≡ cs.shard_num) where
    get_shard_score-Gives :
        (s : ℕ) → s < cs.shard_num → Gives (λ score. Unit) (get_shard_score ops cs v s)
    unfolding get_shard_score
    get_shard_score-Gives s h =
        Gives-bind (λ x. x ≡ get_or cs.edges2shard s (pos 0)) (λ score. Unit) _ _
          (read_at-Gives s cs.edges2shard (omega arith)) (λ edges is. tt)

    best_loop-small :
        (us : List String) (scores : Map ℕ F) (max_score : F) (max_shard : ℕ)
        → max_shard < cs.shard_num
        → Gives (λ best. best < cs.shard_num) (best_loop ops cs v us scores max_score max_shard)
    unfolding best_loop
    best_loop-small [] scores max_score max_shard h = h
    best_loop-small (u ∷ us) scores max_score max_shard h =
        elim (Bool-cases (is_some (lookup (shard_of cs u) scores))) [
          | inl t ↦ rw (t, best_loop) (best_loop-small us scores max_score max_shard h)
          | inr f ↦
              rw (f, best_loop)
                (Gives-bind (λ score. Unit) (λ best. best < cs.shard_num)
                  (get_shard_score ops cs v (shard_of cs u)) _
                  (get_shard_score-Gives (shard_of cs u) (small u))
                  (λ score _. best_loop-small us _ _ _ (one_of (ops.lt max_score score))))
        ]
      where
        one_of : (b : Bool) → (if b then shard_of cs u else max_shard) < cs.shard_num
        one_of true = small u
        one_of false = h

    pub best_shard-small : Gives (λ best. best < cs.shard_num) (best_shard ops cs v)
    unfolding best_shard
    best_shard-small = best_loop-small (neighbours v cs.net_graph) [] _ (shard_of cs v) (small v)
