-- ===== src/Partition/Examples.antt =====
-- Three accounts in two shards, of which the first pays one in the other shard.
use blbchain.Base.{
  ℕ, suc, zero, ◌*◌, ◌/◌, ◌-◌, ◌≡◌, refl, String, string_eq, nat_eq, true, List, [], ◌∷◌, Gives,
  get_or, ltb, some, lookup, arith,
}
use blbchain.Base.Int.{pos, pos_part}
use blbchain.Partition.{has_vertex, Floats, ClpaState}
use blbchain.Partition.Clpa.{clpa_partition}
use blbchain.Partition.Members.{vertex_count}
use blbchain.Partition.Sound.{IsSound}
use blbchain.Partition.Start.{
  too_many_shards, initialised, Started, stable_init_partition, stable_init_partition-Started,
}
use blbchain.Partition.Result.{Repartitioned, clpa_partition-Repartitioned}

abbrev pub naturals : Floats ℕ
naturals = record {
  of_int = λ z. pos_part z;
  div = λ x y. x / y;
  mul = λ x y. x * y;
  sub = λ x y. x - y;
  lt = ltb;
}

abbrev pub payers : ClpaState ℕ
payers = record {
  net_graph = record {
    vertex_set = ("a", true) ∷ ("b", true) ∷ ("c", true) ∷ [];
    edge_set = ("a", "b" ∷ []) ∷ ("b", "a" ∷ []) ∷ [];
  };
  partition_map = ("a", 0) ∷ ("b", 1) ∷ ("c", 0) ∷ [];
  edges2shard = [];
  vertexs_num_in_shard = pos 2 ∷ pos 1 ∷ [];
  weight_penalty = 0;
  min_edges2shard = pos 0;
  max_iterations = 1;
  cross_shard_edge_num = pos 0;
  shard_num = 2;
}

pub payers-IsSound : IsSound payers
unfolding vertex_count
payers-IsSound = record {
  has_shards = omega arith;
  in_range = (omega arith, (omega arith, (omega arith, tt)));
  vertices_once = (refl, (refl, (refl, tt)));
  counters_length = refl;
  counters = at;
}
  where
    at :
        (j : ℕ)
        → get_or (pos 2 ∷ pos 1 ∷ []) j (pos 0)
          ≡ pos (
              vertex_count
                (("a", 0) ∷ ("b", 1) ∷ ("c", 0) ∷ [])
                j
                (("a", true) ∷ ("b", true) ∷ ("c", true) ∷ []))
    at zero = refl
    at (suc zero) = refl
    at (suc (suc j)) = ground arith

abbrev pub vertices : ℕ → List String
vertices k = "a" ∷ "b" ∷ "c" ∷ []

clpa_partition-Repartitioned_example :
    Gives
      (λ (res, cross, done). Repartitioned payers res done)
      (clpa_partition naturals vertices payers)
unfolding has_vertex
clpa_partition-Repartitioned_example =
    clpa_partition-Repartitioned naturals vertices payers payers-IsSound
      (λ k. (refl, (refl, (refl, tt))))

moves_a :
    Gives
      (λ (res, cross, done).
        (res ≡ ("a", 1) ∷ []) × (done.vertexs_num_in_shard ≡ pos 1 ∷ pos 2 ∷ []) × (cross ≡ pos 0))
      (clpa_partition naturals vertices payers)
unfolding clpa_partition
moves_a = (refl, refl, refl)

stable_init_partition-Started_example : Gives (Started payers) (stable_init_partition payers)
unfolding lookup
stable_init_partition-Started_example =
    stable_init_partition-Started payers (omega arith) (refl, (refl, (refl, tt)))

deals_in_turn :
    Gives
      (λ r. elim r [
        | too_many_shards ↦ ⊥
        | initialised done ↦ done.partition_map ≡ ("a", 0) ∷ ("b", 1) ∷ ("c", 0) ∷ []
      ])
      (stable_init_partition payers)
unfolding stable_init_partition
deals_in_turn = refl

refuses_four_shards : stable_init_partition (record payers { shard_num = 4 }) ≡ some too_many_shards
unfolding stable_init_partition
refuses_four_shards = refl
