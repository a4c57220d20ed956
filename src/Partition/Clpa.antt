-- ===== src/Partition/Clpa.antt =====
-- The CLPA algorithm of partition/partition_CLPA.go: its state under new vertices and edges, and
-- `CLPA_Partition`.
use blbchain.Base.{
  ℕ, zero, suc, ◌+◌, String, string_eq, nat_eq, true, false, not, ◌&&◌, Option, some, ◌>>=◌, List,
  [], ◌∷◌, Map, lookup, insert, or_zero, or_else, is_some, leb, nat_beq, if◌then◌else◌, length,
  replicate,
}
use blbchain.Base.Int.{ℤ, pos, negsuc, ◌+ℤ◌, ltb_ℤ}
use blbchain.Partition.{
  has_vertex, neighbours, graph_add_vertex, graph_add_edge, Floats, ClpaState, add_at, read_at,
  shard_in, shard_of, compute_edges2shard, min_ints, max_int,
}

-- The sums that a move of a vertex from the shard `old` to the shard `new` changes, over its neighbours.
unfoldable pub recount : Map String ℕ → ℕ → ℕ → List String → List ℤ × ℤ → Option (List ℤ × ℤ)
unfolding add_at shard_in ◌+ℤ◌
recount pm new old [] counts = some counts
recount pm new old (u ∷ us) (edges, cross) =
    (if not (nat_beq (shard_in pm u) new) && not (nat_beq (shard_in pm u) old)
      then (add_at new (pos 1) edges >>= λ e. add_at old (negsuc 0) e >>= λ e'. some (e', cross))
      else if nat_beq (shard_in pm u) new
      then (add_at old (negsuc 0) edges >>= λ e. some (e, cross +ℤ negsuc 0))
      else (add_at new (pos 1) edges >>= λ e. some (e, cross +ℤ pos 1)))
    >>= λ counts. recount pm new old us counts

unfoldable pub count_in_shard : Map String ℕ → ℕ → List String → ℕ
unfolding shard_in
count_in_shard pm shard [] = 0
count_in_shard pm shard (u ∷ us) =
    (if nat_beq (shard_in pm u) shard then 1 else 0) + count_in_shard pm shard us

module _ {F : Type 0} where
  unfoldable pub init_clpa_state : F → ℕ → ℕ → ClpaState F
  init_clpa_state wp m_iter sn = record {
    net_graph = record { vertex_set = []; edge_set = [] };
    partition_map = [];
    edges2shard = [];
    vertexs_num_in_shard = replicate sn (pos 0);
    weight_penalty = wp;
    min_edges2shard = pos 0;
    max_iterations = m_iter;
    cross_shard_edge_num = pos 0;
    shard_num = sn;
  }

  -- `addr2shard` is that of utils, at the global number of shards; it stops the program on an address that is no
  -- hexadecimal number.
  unfoldable pub clpa_add_vertex : (String → Option ℕ) → String → ClpaState F → Option (ClpaState F)
  unfolding graph_add_vertex lookup insert add_at
  clpa_add_vertex addr2shard v cs = or_else (lookup v cs.partition_map) (addr2shard v) >>= λ shard.
      add_at shard (pos 1) cs.vertexs_num_in_shard >>= λ counts. some (record cs {
        net_graph = graph_add_vertex v cs.net_graph;
        partition_map = insert v shard cs.partition_map;
        vertexs_num_in_shard = counts;
      })

  abbrev pub ensure_vertex : (String → Option ℕ) → String → ClpaState F → Option (ClpaState F)
  ensure_vertex addr2shard v cs =
      if has_vertex v cs.net_graph then some cs else clpa_add_vertex addr2shard v cs

  unfoldable pub clpa_add_edge :
      (String → Option ℕ) → String → String → ClpaState F → Option (ClpaState F)
  unfolding clpa_add_vertex has_vertex graph_add_edge
  clpa_add_edge addr2shard u v cs = do
    cs' ← ensure_vertex addr2shard u cs
    cs'' ← ensure_vertex addr2shard v cs'
    some (record cs'' { net_graph = graph_add_edge u v cs''.net_graph })

  unfoldable pub change_shard_recompute : String → ℕ → ClpaState F → Option (ClpaState F)
  unfolding recount shard_of neighbours min_ints
  change_shard_recompute v old cs = do
    (edges, cross) ←
        recount cs.partition_map (shard_of cs v) old (neighbours v cs.net_graph)
          (cs.edges2shard, cs.cross_shard_edge_num)
    some (record cs {
      edges2shard = edges;
      cross_shard_edge_num = cross;
      min_edges2shard = min_ints edges max_int;
    })

-- The variables of the loops: the state, the result, and how often each vertex was moved.
pub record Search (F : Type 0) : Type 0 where
  pub state : ClpaState F
  pub res : Map String ℕ
  pub update_treshold : Map String ℕ

module _ {F : Type 0} where
  unfoldable pub move : String → ℕ → ℕ → Search F → Option (Search F)
  unfolding insert lookup add_at change_shard_recompute
  move v now best s = do
    counts ← add_at now (negsuc 0) s.state.vertexs_num_in_shard
    counts' ← add_at best (pos 1) counts
    cs ← change_shard_recompute v now (record (s.state) {
      partition_map = insert v best s.state.partition_map;
      vertexs_num_in_shard = counts';
    })
    some (record {
      state = cs;
      res = insert v best s.res;
      update_treshold = insert v (or_zero (lookup v s.update_treshold) 0 + 1) s.update_treshold;
    })

module _ {F : Type 0} (ops : Floats F) where
  unfoldable pub get_shard_score : ClpaState F → String → ℕ → Option F
  unfolding neighbours count_in_shard
  get_shard_score cs v u_shard = do
    let us = neighbours v cs.net_graph
    edges ← read_at u_shard cs.edges2shard
    some (
        ops.mul
          (ops.div (ops.of_int (pos (count_in_shard cs.partition_map u_shard us)))
            (ops.of_int (pos (length us))))
          (ops.sub (ops.of_int (pos 1)) (
            ops.div (ops.mul cs.weight_penalty (ops.of_int edges))
              (ops.of_int cs.min_edges2shard))))

  -- The loop over the neighbours of `v`: the scores so far, the highest, and its shard.
  unfoldable pub best_loop : ClpaState F → String → List String → Map ℕ F → F → ℕ → Option ℕ
  unfolding lookup insert get_shard_score shard_of
  best_loop cs v [] scores max_score max_shard = some max_shard
  best_loop cs v (u ∷ us) scores max_score max_shard =
      elim (is_some (lookup (shard_of cs u) scores)) [
        | true ↦ best_loop cs v us scores max_score max_shard
        | false ↦ do
          score ← get_shard_score cs v (shard_of cs u)
          best_loop cs v us (insert (shard_of cs u) score scores)
              (if ops.lt max_score score then score else max_score)
              (if ops.lt max_score score then shard_of cs u else max_shard)
      ]

  unfoldable pub best_shard : ClpaState F → String → Option ℕ
  unfolding best_loop neighbours shard_of
  best_shard cs v =
      best_loop cs v (neighbours v cs.net_graph) [] (ops.of_int (negsuc 9998)) (shard_of cs v)

  -- One round of the loop over the vertices.
  unfoldable pub visit : String → Search F → Option (Search F)
  unfolding lookup shard_of best_shard move
  visit v s =
      let now = shard_of s.state v in
      if leb 50 (or_zero (lookup v s.update_treshold) 0)
      then some s
      else best_shard s.state v >>= λ best.
          if nat_beq now best
          then some s
          else read_at now s.state.vertexs_num_in_shard >>= λ count.
              if ltb_ℤ (pos 1) count then move v now best s else some s

  unfoldable pub visit_all : List String → Search F → Option (Search F)
  unfolding visit
  visit_all [] s = some s
  visit_all (v ∷ vs) s = visit v s >>= λ s'. visit_all vs s'

  -- `order` gives the vertices in the order in which the loop of an iteration takes them, which Go leaves
  -- open; `n` iterations are left, the next is the one at `iter`.
  unfoldable pub iterate : (ℕ → List String) → ℕ → ℕ → Search F → Option (Search F)
  unfolding visit_all
  iterate order iter zero s = some s
  iterate order iter (suc n) s = visit_all (order iter) s >>= λ s'. iterate order (iter + 1) n s'

  unfoldable pub clpa_partition :
      (ℕ → List String) → ClpaState F → Option (Map String ℕ × ℤ × ClpaState F)
  unfolding compute_edges2shard iterate
  clpa_partition order cs = do
    cs' ← compute_edges2shard cs
    s ← iterate order 0 cs'.max_iterations (record { state = cs'; res = []; update_treshold = [] })
    done ← compute_edges2shard s.state
    some (s.res, done.cross_shard_edge_num, done)
