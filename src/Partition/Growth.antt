-- ===== src/Partition/Growth.antt =====
-- `AddVertex` and `AddEdge` of the CLPA state: the counters as the graph grows.
use blbchain.Base.{
  ℕ, ◌+◌, ◌<◌, ◌≡◌, refl, sym, ap, ◌∙◌, String, string_eq, nat_eq, Bool, true, false, Option, none,
  some, ◌>>=◌, inl, inr, List, [], ◌∷◌, Gives, Gives-bind, Gives-if, All, Map, insert-HasKeysOnce,
  lookup, insert, lookup-insert_self, lookup-insert_ne, nat_beq, if◌then◌else◌, Bool-cases, ◌==◌,
  subst, is_some, or_else, or_zero, arith,
}
use blbchain.Base.Int.{ℤ, pos, ◌+ℤ◌}
use blbchain.Partition.{
  Graph, has_vertex, graph_add_vertex, graph_add_edge, ClpaState, shard_in, add_at,
}
use blbchain.Partition.Clpa.{clpa_add_vertex, ensure_vertex, clpa_add_edge}
use blbchain.Partition.Tallies.{Bumped, add_at-Bumped}
use blbchain.Partition.Members.{vertex_count, vertex_count-insert_absent, shard_in-insert_self}
use blbchain.Partition.Sound.{SoundAt, IsSound, All-insert}

vertex_count-added :
    (pm : Map String ℕ) (v : String) (j : ℕ) (vs : Map String Bool)
    → lookup v vs ≡ none
    → vertex_count pm j (insert v true vs)
      ≡ vertex_count pm j vs + (if nat_beq (shard_in pm v) j then 1 else 0)
unfolding vertex_count lookup insert
vertex_count-added pm v j [] absent = omega arith
vertex_count-added pm v j ((u, x) ∷ vs) absent = elim (Bool-cases (u == v)) [
  | inl t ↦ absurd (some≢none (sym (first t) ∙ absent))
  | inr f ↦ rw f (omega (arith, vertex_count-added pm v j vs (sym (rest f) ∙ absent)))
]
  where
    first : (u == v) ≡ true → lookup v ((u, x) ∷ vs) ≡ some x
    first t = rw t refl

    rest : (u == v) ≡ false → lookup v ((u, x) ∷ vs) ≡ lookup v vs
    rest f = rw f refl

    some≢none : ¬ (some x ≡ none)
    some≢none h = cc

-- Where an account that the map does not name would be put.
insert-or_zero :
    (v a : String) (pm : Map String ℕ) (d : String → ℕ)
    → or_zero (lookup a (insert v (or_zero (lookup v pm) (d v)) pm)) (d a)
      ≡ or_zero (lookup a pm) (d a)
insert-or_zero v a pm d = elim (Bool-cases (v == a)) [
  | inl t ↦
      subst
        (λ u.
          or_zero (lookup u (insert v (or_zero (lookup v pm) (d v)) pm)) (d u)
          ≡ or_zero (lookup u pm) (d u))
        ((string_eq.equals_iff v a).0 t)
        (rw (lookup-insert_self v (or_zero (lookup v pm) (d v)) pm) refl)
  | inr f ↦ rw (lookup-insert_ne v a (or_zero (lookup v pm) (d v)) pm f) refl
]

or_zero-small :
    (n : ℕ) (d : ℕ) (pm : Map String ℕ) (v : String)
    → d < n
    → All (λ e. e.1 < n) pm
    → or_zero (lookup v pm) d < n
unfolding lookup
or_zero-small n d [] v h all = h
or_zero-small n d ((u, s) ∷ pm) v h (first, rest) = elim (Bool-cases (u == v)) [
  | inl t ↦ rw t first
  | inr f ↦ rw f (or_zero-small n d pm v h rest)
]

pub entered_counter :
    (m m' : ℕ) (entered : Bool) (x y : ℤ)
    → x ≡ pos m
    → y ≡ (if entered then x +ℤ pos 1 else x)
    → m' ≡ m + (if entered then 1 else 0)
    → y ≡ pos m'
unfolding ◌+ℤ◌
entered_counter m m' true x y ex ey e = ground arith
entered_counter m m' false x y ex ey e = ground arith

or_else-found : (o p : Option ℕ) (d : ℕ) → p ≡ some d → or_else o p ≡ some (or_zero o d)
or_else-found none p d h = h
or_else-found (some a) p d h = refl

graph_add_edge-vertex_set :
    (u v : String) (g : Graph)
    → has_vertex u g ≡ true
    → has_vertex v g ≡ true
    → (graph_add_edge u v g).vertex_set ≡ g.vertex_set
unfolding graph_add_edge
graph_add_edge-vertex_set u v g hu hv = rw (hu, hv) refl

module _ {F : Type 0} (addr2shard : String → ℕ) where
  -- A later state: sound, of the same shards, with the vertices of `before`, no account elsewhere.
  pub record Grown (before after : ClpaState F) : Type 0 where
    pub sound : IsSound after
    pub same_shards : after.shard_num ≡ before.shard_num
    pub same_iterations : after.max_iterations ≡ before.max_iterations
    pub placed :
        (a : String)
        → or_zero (lookup a after.partition_map) (addr2shard a)
          ≡ or_zero (lookup a before.partition_map) (addr2shard a)

  pub Grown-refl : (cs : ClpaState F) → IsSound cs → Grown cs cs
  Grown-refl cs sound = record {
    sound = sound;
    same_shards = refl;
    same_iterations = refl;
    placed = λ a. refl;
  }

  pub Grown-trans : (a b c : ClpaState F) → Grown a b → Grown b c → Grown a c
  Grown-trans a b c g h = record {
    sound = h.sound;
    same_shards = h.same_shards ∙ g.same_shards;
    same_iterations = h.same_iterations ∙ g.same_iterations;
    placed = λ v. h.placed v ∙ g.placed v;
  }

  clpa_add_vertex-Grown :
      (find : String → Option ℕ) (v : String) (cs : ClpaState F)
      → find v ≡ some (addr2shard v)
      → IsSound cs
      → addr2shard v < cs.shard_num
      → has_vertex v cs.net_graph ≡ false
      → Gives (Grown cs) (clpa_add_vertex find v cs)
  unfolding clpa_add_vertex graph_add_vertex has_vertex
  clpa_add_vertex-Grown find v cs found sound small absent =
      let shard = or_zero (lookup v cs.partition_map) (addr2shard v) in
      let shard_small =
        or_zero-small cs.shard_num (addr2shard v) cs.partition_map v small sound.in_range in
      rw (or_else-found (lookup v cs.partition_map) (find v) (addr2shard v) found) (
        Gives-bind (Bumped shard (pos 1) cs.vertexs_num_in_shard) (Grown cs)
          (add_at shard (pos 1) cs.vertexs_num_in_shard) _
          (add_at-Bumped shard (pos 1) cs.vertexs_num_in_shard
            (subst (λ n. shard < n) (sym sound.counters_length) shard_small))
          (λ counts b. record {
            sound = record {
              has_shards = sound.has_shards;
              in_range =
                  All-insert cs.shard_num v shard cs.partition_map shard_small sound.in_range;
              vertices_once = insert-HasKeysOnce v true cs.net_graph.vertex_set sound.vertices_once;
              counters_length = b.0 ∙ sound.counters_length;
              counters = λ j.
                  entered_counter _ _ (nat_beq shard j) _ _ (sound.counters j) (b.1 j) (added j);
            };
            same_shards = refl;
            same_iterations = refl;
            placed = λ a. insert-or_zero v a cs.partition_map addr2shard;
          }))
    where
      is_none : (o : Option Bool) → is_some o ≡ false → o ≡ none
      is_none none h = refl
      is_none (some x) h = cc

      gone : lookup v cs.net_graph.vertex_set ≡ none
      gone = is_none (lookup v cs.net_graph.vertex_set) absent

      added :
          (j : ℕ)
          → vertex_count
              (insert v (or_zero (lookup v cs.partition_map) (addr2shard v)) cs.partition_map)
              j
              (insert v true cs.net_graph.vertex_set)
            ≡ vertex_count cs.partition_map j cs.net_graph.vertex_set
              + (if nat_beq (or_zero (lookup v cs.partition_map) (addr2shard v)) j then 1 else 0)
      added j =
          let shard = or_zero (lookup v cs.partition_map) (addr2shard v) in
          vertex_count-added (insert v shard cs.partition_map) v j cs.net_graph.vertex_set gone
          ∙ rw
              (
                shard_in-insert_self cs.partition_map v shard,
                vertex_count-insert_absent cs.partition_map v shard j cs.net_graph.vertex_set gone,
              )
              refl

  -- The vertices stay, and `v` is one.
  abbrev HoldsVertex : String → ClpaState F → ClpaState F → Type 0
  HoldsVertex v before after =
      (has_vertex v after.net_graph ≡ true)
      × ((u : String) → has_vertex u before.net_graph ≡ true → has_vertex u after.net_graph ≡ true)

  clpa_add_vertex-HoldsVertex :
      (find : String → Option ℕ) (v : String) (cs : ClpaState F)
      → Gives (Grown cs) (clpa_add_vertex find v cs)
      → Gives (λ cs'. Grown cs cs' × HoldsVertex v cs cs') (clpa_add_vertex find v cs)
  unfolding clpa_add_vertex graph_add_vertex has_vertex
  clpa_add_vertex-HoldsVertex find v cs grown =
      first (or_else (lookup v cs.partition_map) (find v)) grown
    where
      stays :
          (u : String)
          → is_some (lookup u cs.net_graph.vertex_set) ≡ true
          → is_some (lookup u (insert v true cs.net_graph.vertex_set)) ≡ true
      stays u h = elim (Bool-cases (v == u)) [
        | inl t ↦
            subst (λ w. is_some (lookup w (insert v true cs.net_graph.vertex_set)) ≡ true)
              ((string_eq.equals_iff v u).0 t)
              (rw (lookup-insert_self v true cs.net_graph.vertex_set) refl)
        | inr f ↦ rw (lookup-insert_ne v u true cs.net_graph.vertex_set f) h
      ]

      with_counts : ℕ → List ℤ → ClpaState F
      with_counts shard counts = record cs {
        net_graph = record (cs.net_graph) { vertex_set = insert v true cs.net_graph.vertex_set };
        partition_map = insert v shard cs.partition_map;
        vertexs_num_in_shard = counts;
      }

      both :
          (shard : ℕ) (m : Option (List ℤ))
          → Gives (Grown cs) (m >>= λ counts. some (with_counts shard counts))
          → Gives
              (λ cs'. Grown cs cs' × HoldsVertex v cs cs')
              (m >>= λ counts. some (with_counts shard counts))
      both shard none h = h
      both shard (some counts) h =
          (h, (ap is_some (lookup-insert_self v true cs.net_graph.vertex_set), stays))

      place : ℕ → Option (ClpaState F)
      place shard =
          add_at shard (pos 1) cs.vertexs_num_in_shard >>= λ counts. some (with_counts shard counts)

      first :
          (o : Option ℕ)
          → Gives (Grown cs) (o >>= place)
          → Gives (λ cs'. Grown cs cs' × HoldsVertex v cs cs') (o >>= place)
      first none h = h
      first (some shard) h = both shard (add_at shard (pos 1) cs.vertexs_num_in_shard) h

  ensure_vertex-Grown :
      (find : String → Option ℕ) (v : String) (cs : ClpaState F)
      → find v ≡ some (addr2shard v)
      → IsSound cs
      → addr2shard v < cs.shard_num
      → Gives (λ cs'. Grown cs cs' × HoldsVertex v cs cs') (ensure_vertex find v cs)
  ensure_vertex-Grown find v cs found sound small =
      Gives-if (λ cs'. Grown cs cs' × HoldsVertex v cs cs') (has_vertex v cs.net_graph) _ _
        (λ here. (Grown-refl cs sound, (here, λ u h. h)))
        (λ absent.
          clpa_add_vertex-HoldsVertex find v cs
            (clpa_add_vertex-Grown find v cs found sound small absent))

  pub clpa_add_edge-Grown :
      (find : String → Option ℕ) (u v : String) (cs : ClpaState F)
      → find u ≡ some (addr2shard u)
      → find v ≡ some (addr2shard v)
      → IsSound cs
      → ((a : String) → addr2shard a < cs.shard_num)
      → Gives (Grown cs) (clpa_add_edge find u v cs)
  unfolding clpa_add_edge
  clpa_add_edge-Grown find u v cs found_u found_v sound small =
      Gives-bind _ (Grown cs) (ensure_vertex find u cs) _
        (ensure_vertex-Grown find u cs found_u sound (small u))
        (λ cs' (grown, (here, _)).
          Gives-bind _ (Grown cs) (ensure_vertex find v cs') _
            (ensure_vertex-Grown find v cs' found_v grown.sound
              (subst (λ n. addr2shard v < n) (sym grown.same_shards) (small v)))
            (λ cs'' (grown', (here', stays)).
              let all = Grown-trans cs cs' cs'' grown grown' in
              record {
                sound =
                    subst
                      (λ vs. SoundAt cs''.shard_num vs cs''.partition_map cs''.vertexs_num_in_shard)
                      (sym (graph_add_edge-vertex_set u v cs''.net_graph (stays u here) here'))
                      all.sound;
                same_shards = all.same_shards;
                same_iterations = all.same_iterations;
                placed = all.placed;
              }))
