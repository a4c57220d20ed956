-- ===== src/Partition/Moves.antt =====
-- What `CLPA_Partition` keeps while it moves vertices between shards, and that its run gives a result.
use blbchain.Base.{
  ℕ, zero, suc, ◌+◌, ◌<◌, ◌≤◌, ◌≡◌, refl, sym, ◌∙◌, String, string_eq, nat_eq, Bool, true, false,
  inl, inr, List, [], ◌∷◌, Gives, Gives-bind, Gives-if, All, get_or, length, Map, HasKeysOnce,
  insert-HasKeysOnce, lookup, insert, lookup-insert_self, lookup-insert_ne, nat_beq, if◌then◌else◌,
  Bool-cases, ◌==◌, subst, or_zero, leb, arith,
}
use blbchain.Base.Int.{ℤ, pos, negsuc, ◌+ℤ◌, ltb_ℤ}
use blbchain.Partition.{has_vertex, Floats, ClpaState, add_at, read_at, shard_of}
use blbchain.Partition.Clpa.{
  Search, change_shard_recompute, best_shard, move, visit, visit_all, iterate,
}
use blbchain.Partition.Tallies.{Bumped, add_at-Bumped, read_at-Gives}
use blbchain.Partition.Members.{vertex_count, vertex_count-insert, shard_in-insert_self}
use blbchain.Partition.Sound.{
  SoundAt, IsSound, IsSound-small, All-insert, retally, Retallied, change_shard_recompute-Retallied,
  best_shard-small,
}

-- One counter after the two changes of a move.
moved_counter :
    (m m' : ℕ) (left entered : Bool) (x y z : ℤ)
    → x ≡ pos m
    → y ≡ (if left then x +ℤ negsuc 0 else x)
    → z ≡ (if entered then y +ℤ pos 1 else y)
    → m' + (if left then 1 else 0) ≡ m + (if entered then 1 else 0)
    → z ≡ pos m'
unfolding ◌+ℤ◌
moved_counter m m' true true x y z ex ey ez e = ground arith
moved_counter m m' true false x y z ex ey ez e = ground arith
moved_counter m m' false true x y z ex ey ez e = ground arith
moved_counter m m' false false x y z ex ey ez e = ground arith

-- A shard that is not left by its last vertex keeps one.
moved_kept :
    (m m' now j : ℕ) (entered : Bool)
    → (now ≡ j → 1 < m)
    → m' + (if nat_beq now j then 1 else 0) ≡ m + (if entered then 1 else 0)
    → 1 ≤ m
    → 1 ≤ m'
moved_kept m m' now j true more e h = ground arith
moved_kept m m' now j false more e h = ground arith

module _ {F : Type 0} (ops : Floats F) (start : ClpaState F) where
  -- Between two steps of the loops: the state is sound, the result says where each vertex stands, and a
  -- shard that had vertices has some.
  pub record Searching (s : Search F) : Type 0 where
    pub sound : IsSound (s.state)
    pub edges_length : length (s.state.edges2shard) ≡ s.state.shard_num
    pub same_graph : s.state.net_graph ≡ start.net_graph
    pub same_shards : s.state.shard_num ≡ start.shard_num
    pub overlay :
        (d : ℕ) (a : String)
        → or_zero (lookup a s.state.partition_map) d
          ≡ or_zero (lookup a s.res) (or_zero (lookup a start.partition_map) d)
    pub res_once : HasKeysOnce s.res
    pub res_in_range : All (λ e. e.1 < s.state.shard_num) s.res
    pub kept :
        (j : ℕ)
        → 1 ≤ vertex_count start.partition_map j start.net_graph.vertex_set
        → 1 ≤ vertex_count s.state.partition_map j s.state.net_graph.vertex_set

  moved_overlay :
      (pm : Map String ℕ) (v : String) (best : ℕ) (res : Map String ℕ)
      → ((d : ℕ) (a : String)
          → or_zero (lookup a pm) d
            ≡ or_zero (lookup a res) (or_zero (lookup a start.partition_map) d))
      → (d : ℕ) (a : String)
      → or_zero (lookup a (insert v best pm)) d
        ≡ or_zero (lookup a (insert v best res)) (or_zero (lookup a start.partition_map) d)
  moved_overlay pm v best res before d a = elim (Bool-cases (v == a)) [
    | inl t ↦
        subst
          (λ u.
            or_zero (lookup u (insert v best pm)) d
            ≡ or_zero (lookup u (insert v best res)) (or_zero (lookup u start.partition_map) d))
          ((string_eq.equals_iff v a).0 t)
          (rw (lookup-insert_self v best pm, lookup-insert_self v best res) refl)
    | inr f ↦ rw (lookup-insert_ne v a best pm f, lookup-insert_ne v a best res f) (before d a)
  ]

  module _ (v : String) (best : ℕ) (s : Search F) (inv : Searching s)
      (present : has_vertex v s.state.net_graph ≡ true) where
    moved_count :
        (j : ℕ)
        → vertex_count (insert v best s.state.partition_map) j s.state.net_graph.vertex_set
            + (if nat_beq (shard_of (s.state) v) j then 1 else 0)
          ≡ vertex_count s.state.partition_map j s.state.net_graph.vertex_set
            + (if nat_beq best j then 1 else 0)
    unfolding has_vertex shard_of
    moved_count j =
        vertex_count-insert s.state.partition_map v best j s.state.net_graph.vertex_set
          inv.sound.vertices_once present

    moved_sound :
        (c1 c2 : List ℤ)
        → best < s.state.shard_num
        → Bumped (shard_of (s.state) v) (negsuc 0) s.state.vertexs_num_in_shard c1
        → Bumped best (pos 1) c1 c2
        → SoundAt s.state.shard_num s.state.net_graph.vertex_set
            (insert v best s.state.partition_map)
            c2
    moved_sound c1 c2 small left entered = record {
      has_shards = inv.sound.has_shards;
      in_range = All-insert s.state.shard_num v best s.state.partition_map small inv.sound.in_range;
      vertices_once = inv.sound.vertices_once;
      counters_length = entered.0 ∙ left.0 ∙ inv.sound.counters_length;
      counters = λ j.
          moved_counter _ _ (nat_beq (shard_of (s.state) v) j) (nat_beq best j) _ _ _
            (inv.sound.counters j) (left.1 j) (entered.1 j) (moved_count j);
    }

    moved-Searching :
        (c1 c2 edges : List ℤ) (cross least : ℤ)
        → best < s.state.shard_num
        → 1 < vertex_count s.state.partition_map (shard_of (s.state) v) s.state.net_graph.vertex_set
        → Bumped (shard_of (s.state) v) (negsuc 0) s.state.vertexs_num_in_shard c1
        → Bumped best (pos 1) c1 c2
        → length edges ≡ s.state.shard_num
        → (counts : Map String ℕ)
        → Searching (record {
          state = retally edges cross least (record (s.state) {
            partition_map = insert v best s.state.partition_map;
            vertexs_num_in_shard = c2;
          });
          res = insert v best s.res;
          update_treshold = counts;
        })
    unfolding shard_of
    moved-Searching c1 c2 edges cross least small more left entered size counts = record {
      sound = moved_sound c1 c2 small left entered;
      edges_length = size;
      same_graph = inv.same_graph;
      same_shards = inv.same_shards;
      overlay = moved_overlay s.state.partition_map v best s.res inv.overlay;
      res_once = insert-HasKeysOnce v best s.res inv.res_once;
      res_in_range = All-insert s.state.shard_num v best s.res small inv.res_in_range;
      kept = λ j h.
          moved_kept _ _ (shard_of (s.state) v) j (nat_beq best j)
            (λ same.
              subst (λ i. 1 < vertex_count s.state.partition_map i s.state.net_graph.vertex_set)
                same more)
            (moved_count j) (inv.kept j h);
    }

    move-Searching :
        best < s.state.shard_num
        → 1 < vertex_count s.state.partition_map (shard_of (s.state) v) s.state.net_graph.vertex_set
        → Gives Searching (move v (shard_of (s.state) v) best s)
    unfolding move shard_of
    move-Searching small more =
        let now = shard_of (s.state) v in
        let counts = s.state.vertexs_num_in_shard in
        let now_small = IsSound-small (s.state) inv.sound v in
        Gives-bind (Bumped now (negsuc 0) counts) Searching (add_at now (negsuc 0) counts) _
          (add_at-Bumped now (negsuc 0) counts
            (subst (λ n. now < n) (sym inv.sound.counters_length) now_small))
          (λ c1 left.
            Gives-bind (Bumped best (pos 1) c1) Searching (add_at best (pos 1) c1) _
              (add_at-Bumped best (pos 1) c1
                (subst (λ n. best < n) (sym (left.0 ∙ inv.sound.counters_length)) small))
              (λ c2 entered.
                let there = record (s.state) {
                  partition_map = insert v best s.state.partition_map;
                  vertexs_num_in_shard = c2;
                } in
                Gives-bind (Retallied there) Searching (change_shard_recompute v now there) _
                  (change_shard_recompute-Retallied v now there
                    (subst (λ b. b < s.state.shard_num)
                      (sym (shard_in-insert_self s.state.partition_map v best)) small)
                    now_small inv.edges_length)
                  (λ cs (edges, cross, least, size, is).
                    subst
                      (λ c. Searching (record {
                        state = c;
                        res = insert v best s.res;
                        update_treshold =
                            insert v (or_zero (lookup v s.update_treshold) 0 + 1) s.update_treshold;
                      }))
                      (sym is)
                      (moved-Searching c1 c2 edges cross least small more left entered size _))))

  more_than_one :
      (s : Search F) (v : String) (count : ℤ)
      → Searching s
      → count ≡ get_or s.state.vertexs_num_in_shard (shard_of (s.state) v) (pos 0)
      → ltb_ℤ (pos 1) count ≡ true
      → 1 < vertex_count s.state.partition_map (shard_of (s.state) v) s.state.net_graph.vertex_set
  more_than_one s v count inv is h = at _ count (is ∙ inv.sound.counters (shard_of (s.state) v)) h
    where
      at : (m : ℕ) (x : ℤ) → x ≡ pos m → ltb_ℤ (pos 1) x ≡ true → 1 < m
      at m x e h = ground arith

  visit-Searching :
      (v : String) (s : Search F)
      → Searching s
      → has_vertex v start.net_graph ≡ true
      → Gives Searching (visit ops v s)
  unfolding visit
  visit-Searching v s inv present =
      let now = shard_of (s.state) v in
      let small = IsSound-small (s.state) inv.sound in
      let here = subst (λ g. has_vertex v g ≡ true) (sym inv.same_graph) present in
      Gives-if Searching (leb 50 (or_zero (lookup v s.update_treshold) 0)) _ _ (λ _. inv)
        (λ _.
          Gives-bind (λ best. best < s.state.shard_num) Searching (best_shard ops (s.state) v) _
            (best_shard-small ops (s.state) v small inv.edges_length)
            (λ best best_small.
              Gives-if Searching (nat_beq now best) _ _ (λ _. inv)
                (λ _.
                  Gives-bind _ Searching (read_at now s.state.vertexs_num_in_shard) _
                    (read_at-Gives now s.state.vertexs_num_in_shard
                      (subst (λ n. now < n) (sym inv.sound.counters_length) (small v)))
                    (λ count is.
                      Gives-if Searching (ltb_ℤ (pos 1) count) _ _
                        (λ h.
                          move-Searching v best s inv here best_small
                            (more_than_one s v count inv is h))
                        (λ _. inv)))))

  visit_all-Searching :
      (vs : List String) (s : Search F)
      → Searching s
      → All (λ v. has_vertex v start.net_graph ≡ true) vs
      → Gives Searching (visit_all ops vs s)
  unfolding visit_all
  visit_all-Searching [] s inv here = inv
  visit_all-Searching (v ∷ vs) s inv (here, rest) =
      Gives-bind Searching Searching (visit ops v s) _ (visit-Searching v s inv here)
        (λ s' inv'. visit_all-Searching vs s' inv' rest)

  pub iterate-Searching :
      (order : ℕ → List String) (iter n : ℕ) (s : Search F)
      → Searching s
      → ((k : ℕ) → All (λ v. has_vertex v start.net_graph ≡ true) (order k))
      → Gives Searching (iterate ops order iter n s)
  unfolding iterate
  iterate-Searching order iter zero s inv here = inv
  iterate-Searching order iter (suc n) s inv here =
      Gives-bind Searching Searching (visit_all ops (order iter) s) _
        (visit_all-Searching (order iter) s inv (here iter))
        (λ s' inv'. iterate-Searching order (iter + 1) n s' inv' here)
