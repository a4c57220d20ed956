-- ===== src/Partition/Result.antt =====
-- `CLPA_Partition` as a whole, and the graph as edges are added.
use blbchain.Base.{
  min, ℕ, zero, suc, ◌<◌, ◌≤◌, ◌≡◌, refl, sym, String, string_eq, nat_eq, true, List, [], Gives,
  Gives-bind, All, Map, HasKeysOnce, lookup, subst, or_zero, arith,
}
use blbchain.Base.Int.{ℤ}
use blbchain.Partition.{has_vertex, Floats, ClpaState, compute_edges2shard}
use blbchain.Partition.Clpa.{Search, iterate, clpa_partition}
use blbchain.Partition.Members.{vertex_count}
use blbchain.Partition.Sound.{IsSound, IsSound-small, Retallied, compute_edges2shard-Retallied}
use blbchain.Partition.Moves.{Searching, iterate-Searching}

module _ {F : Type 0} where
  -- What a run promises of its result and of the state it leaves.
  pub record Repartitioned (start : ClpaState F) (res : Map String ℕ) (done : ClpaState F)
      : Type 0 where
    pub sound : IsSound done
    pub same_graph : done.net_graph ≡ start.net_graph
    pub same_shards : done.shard_num ≡ start.shard_num
    pub overlay :
        (d : ℕ) (a : String)
        → or_zero (lookup a done.partition_map) d
          ≡ or_zero (lookup a res) (or_zero (lookup a start.partition_map) d)
    pub res_once : HasKeysOnce res
    pub res_in_range : All (λ e. e.1 < start.shard_num) res
    pub kept :
        (j : ℕ)
        → min 1 (vertex_count start.partition_map j start.net_graph.vertex_set)
          ≤ vertex_count done.partition_map j done.net_graph.vertex_set

  Searching-Repartitioned :
      (ops : Floats F) (start : ClpaState F) (s : Search F) (done : ClpaState F)
      → Searching ops start s
      → Retallied (s.state) done
      → Repartitioned start s.res done
  Searching-Repartitioned ops start s done inv (edges, cross, least, size, is) =
      subst (λ c. Repartitioned start s.res c) (sym is)
        (record {
          sound = inv.sound;
          same_graph = inv.same_graph;
          same_shards = inv.same_shards;
          overlay = inv.overlay;
          res_once = inv.res_once;
          res_in_range = subst (λ n. All (λ e. e.1 < n) s.res) inv.same_shards inv.res_in_range;
          kept = λ j. at_least_one _ _ (inv.kept j);
        })
    where
      at_least_one : (m m' : ℕ) → (1 ≤ m → 1 ≤ m') → min 1 m ≤ m'
      at_least_one zero m' h = ground arith
      at_least_one (suc m) m' h = ground (arith, h (ground arith))

  begun-Searching :
      (ops : Floats F) (start begun : ClpaState F)
      → IsSound start
      → Retallied start begun
      → Searching ops start (record { state = begun; res = []; update_treshold = [] })
  unfolding lookup
  begun-Searching ops start begun sound (edges, cross, least, size, is) =
      subst (λ c. Searching ops start (record { state = c; res = []; update_treshold = [] }))
        (sym is)
        (record {
          sound = sound;
          edges_length = size;
          same_graph = refl;
          same_shards = refl;
          overlay = λ d a. refl;
          res_once = tt;
          res_in_range = tt;
          kept = λ j h. h;
        })

  -- On a state that is sound (every vertex in a shard that exists, each shard's counter the number of its
  -- vertices), and where the loops visit vertices of the graph only, CLPA_Partition gives a result, with
  -- no index out of range, whatever the floats do. The state it leaves is sound and has the same graph and
  -- shards. A vertex is in the shard that the result names, or where it was, the result names each vertex
  -- once and only shards that exist, and a shard that had a vertex still has one.
  pub clpa_partition-Repartitioned :
      (ops : Floats F) (order : ℕ → List String) (start : ClpaState F)
      → IsSound start
      → ((k : ℕ) → All (λ v. has_vertex v start.net_graph ≡ true) (order k))
      → Gives (λ (res, cross, done). Repartitioned start res done) (clpa_partition ops order start)
  unfolding clpa_partition
  clpa_partition-Repartitioned ops order start sound here =
      Gives-bind (Retallied start) Result (compute_edges2shard start) _
        (compute_edges2shard-Retallied start (IsSound-small start sound))
        (λ begun told.
          Gives-bind (Searching ops start) Result
            (iterate ops order 0 begun.max_iterations
              (record { state = begun; res = []; update_treshold = [] }))
            _
            (iterate-Searching ops start order 0 begun.max_iterations _
              (begun-Searching ops start begun sound told) here)
            (λ s inv.
              Gives-bind (Retallied (s.state)) Result (compute_edges2shard (s.state)) _
                (compute_edges2shard-Retallied (s.state) (IsSound-small (s.state) inv.sound))
                (λ done again. Searching-Repartitioned ops start s done inv again)))
    where
      Result : Map String ℕ × ℤ × ClpaState F → Type 0
      Result (res, cross, done) = Repartitioned start res done
