-- ===== src/Partition.antt =====
-- partition/graph.go and the CLPA part of partition/partition_CLPA.go. A vertex is its address; a nil
-- map reads as an empty one. Go's floats are the parameter `Floats`. `none` is where the code panics: an
-- index out of range. Copying and printing are left out.
pub mod Clpa
pub mod Tallies
pub mod Members
pub mod Sound
pub mod Moves
pub mod Result
pub mod Growth
pub mod Start
pub mod Examples
use blbchain.Base.{
  ℕ, zero, suc, ◌+◌, ◌/◌, String, string_eq, nat_eq, Bool, true, false, not, ◌&&◌, Option, none,
  some, ◌>>=◌, List, [], ◌∷◌, ◌++◌, Map, lookup, insert, or_zero, is_some, ltb, leb, nat_beq,
  if◌then◌else◌, length, replicate,
}
use blbchain.Base.Int.{ℤ, pos, negsuc, ◌+ℤ◌, sub_ℕ, ltb_ℤ}

pub record Graph : Type 0 where
  pub vertex_set : Map String Bool
  pub edge_set : Map String (List String)

unfoldable pub has_vertex : String → Graph → Bool
unfolding lookup
has_vertex v g = is_some (lookup v g.vertex_set)

unfoldable pub neighbours : String → Graph → List String
unfolding lookup
neighbours v g = or_zero (lookup v g.edge_set) []

unfoldable pub graph_add_vertex : String → Graph → Graph
unfolding insert
graph_add_vertex v g = record g { vertex_set = insert v true g.vertex_set }

abbrev pub with_vertex : String → Graph → Graph
with_vertex v g = if has_vertex v g then g else graph_add_vertex v g

abbrev pub put_neighbour : String → String → Graph → Graph
put_neighbour u v g = record g { edge_set = insert u (neighbours u g ++ v ∷ []) g.edge_set }

unfoldable pub graph_add_edge : String → String → Graph → Graph
unfolding has_vertex graph_add_vertex neighbours insert
graph_add_edge u v g = put_neighbour v u (put_neighbour u v (with_vertex v (with_vertex u g)))

-- What the code takes from Go's float64.
pub record Floats (F : Type 0) : Type 0 where
  pub of_int : ℤ → F
  pub div : F → F → F
  pub mul : F → F → F
  pub sub : F → F → F
  pub lt : F → F → Bool

pub record ClpaState (F : Type 0) : Type 0 where
  pub net_graph : Graph
  pub partition_map : Map String ℕ
  pub edges2shard : List ℤ
  pub vertexs_num_in_shard : List ℤ
  pub weight_penalty : F
  pub min_edges2shard : ℤ
  pub max_iterations : ℕ
  pub cross_shard_edge_num : ℤ
  pub shard_num : ℕ

-- `a[i] += d`.
unfoldable pub add_at : ℕ → ℤ → List ℤ → Option (List ℤ)
unfolding ◌+ℤ◌
add_at i d [] = none
add_at zero d (x ∷ xs) = some ((x +ℤ d) ∷ xs)
add_at (suc i) d (x ∷ xs) = add_at i d xs >>= λ ys. some (x ∷ ys)

abbrev pub read_at : ℕ → List ℤ → Option ℤ
read_at i [] = none
read_at zero (x ∷ xs) = some x
read_at (suc i) (x ∷ xs) = read_at i xs

-- `PartitionMap[v]`: a missing vertex reads as shard 0.
unfoldable pub shard_in : Map String ℕ → String → ℕ
unfolding lookup
shard_in pm v = or_zero (lookup v pm) 0

-- The inner loop of `ComputeEdges2Shard`, over the neighbours of a vertex of shard `v_shard`: the edges that
-- come from other shards, and those inside each shard.
unfoldable pub count_edges :
    Map String ℕ → ℕ → List String → List ℤ × List ℤ → Option (List ℤ × List ℤ)
unfolding add_at shard_in
count_edges pm v_shard [] counts = some counts
count_edges pm v_shard (u ∷ us) (edges, inter) =
    (if not (nat_beq v_shard (shard_in pm u))
      then (add_at (shard_in pm u) (pos 1) edges >>= λ e. some (e, inter))
      else (add_at (shard_in pm u) (pos 1) inter >>= λ i. some (edges, i)))
    >>= λ counts. count_edges pm v_shard us counts

unfoldable pub count_all :
    Map String ℕ → Map String (List String) → List ℤ × List ℤ → Option (List ℤ × List ℤ)
unfolding count_edges
count_all pm [] counts = some counts
count_all pm ((v, us) ∷ rest) counts =
    count_edges pm (shard_in pm v) us counts >>= λ counts'. count_all pm rest counts'

unfoldable pub sum_ints : List ℤ → ℤ → ℤ
unfolding ◌+ℤ◌
sum_ints [] acc = acc
sum_ints (x ∷ xs) acc = sum_ints xs (acc +ℤ x)

-- Go's division of an int by 2, towards zero.
abbrev pub half : ℤ → ℤ
half (pos n) = pos (n / 2)
half (negsuc n) = sub_ℕ 0 (suc n / 2)

-- `Edges2Shard[idx] += interEdge[idx] / 2`, at each index.
unfoldable pub add_halves : List ℤ → List ℤ → List ℤ
unfolding ◌+ℤ◌
add_halves (e ∷ edges) (i ∷ inter) = (e +ℤ half i) ∷ add_halves edges inter
add_halves [] inter = []
add_halves (e ∷ edges) [] = e ∷ edges

abbrev pub max_int : ℤ
max_int = pos 9223372036854775807

unfoldable pub min_ints : List ℤ → ℤ → ℤ
min_ints [] least = least
min_ints (x ∷ xs) least = min_ints xs (if ltb_ℤ x least then x else least)

module _ {F : Type 0} where
  unfoldable pub shard_of : ClpaState F → String → ℕ
  unfolding shard_in
  shard_of cs v = shard_in cs.partition_map v

  unfoldable pub compute_edges2shard : ClpaState F → Option (ClpaState F)
  unfolding count_all sum_ints add_halves min_ints
  compute_edges2shard cs = do
    (edges, inter) ←
        count_all cs.partition_map cs.net_graph.edge_set
          (replicate cs.shard_num (pos 0), replicate cs.shard_num (pos 0))
    some (record cs {
      edges2shard = add_halves edges inter;
      min_edges2shard = min_ints (add_halves edges inter) max_int;
      cross_shard_edge_num = half (sum_ints edges (pos 0));
    })
