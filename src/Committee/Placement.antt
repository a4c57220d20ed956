-- ===== src/Committee/Placement.antt =====
-- Where the CLPA committee believes an account to be: the map that it sends by, and the graph.
use blbchain.Base.{
  Option, none, some, is_some, or_else-or_zero, ◌%◌, ◌>>=◌, ℕ, zero, suc, ◌+◌, ◌<◌, ◌≡◌, refl, sym,
  ◌∙◌, subst, String, string_eq, true, List, [], ◌∷◌, insert-HasKeysOnce, All, get_or, replicate,
  length-replicate, Map, HasKeysOnce, lookup, insert, lookup-insert_self, lookup-insert_ne, or_zero,
  nat_beq, if◌then◌else◌, Bool-cases, ◌==◌, inl, inr, map, upto, ap, Gives, Gives-bind, Gives-if,
  Gives-map, arith,
}
use blbchain.Base.Int.{ℤ, pos}
use blbchain.Core.Transaction.{Transaction}
use blbchain.Chain.State.{Library, addr2shard, default_shard}
use blbchain.Relay.{BlockInfoMsg}
use blbchain.Partition.{Graph, Floats, ClpaState, has_vertex}
use blbchain.Partition.Clpa.{clpa_add_edge, clpa_partition}
use blbchain.Partition.Members.{vertex_count}
use blbchain.Partition.Sound.{SoundAt, IsSound, All-insert}
use blbchain.Partition.Result.{Repartitioned, clpa_partition-Repartitioned}
use blbchain.Partition.Growth.{Grown, clpa_add_edge-Grown, Grown-trans, Grown-refl}
use blbchain.Committee.Clpa.{
  ClpaEvent, due, reported, clpa_step, clpa_run, ClpaCommittee, PartitionModifiedMap, clpa_map_send,
  merge, new_clpa_committee, account_shard, clpa_reset, clpa_round, add_edges, handle_block_info,
}

-- The state of the counters of shards without a vertex.
zeros : (n j : ℕ) → get_or (replicate n (pos 0)) j (pos 0) ≡ pos 0
zeros zero j = refl
zeros (suc n) zero = refl
zeros (suc n) (suc j) = zeros n j

-- Each key of the first map once: then the merged map reads as the first over the second.
lookup-merge :
    (mmap m : Map String ℕ) (d : ℕ) (a : String)
    → HasKeysOnce mmap
    → or_zero (lookup a (merge mmap m)) d ≡ or_zero (lookup a mmap) (or_zero (lookup a m) d)
unfolding merge lookup
lookup-merge [] m d a once = refl
lookup-merge ((key, val) ∷ mmap) m d a (new, once) = elim (Bool-cases (key == a)) [
  | inl t ↦
      rw (t, lookup-merge mmap (insert key val m) d a once)
        (subst (λ b. or_zero (lookup b mmap) (or_zero (lookup b (insert key val m)) d) ≡ val)
          ((string_eq.equals_iff key a).0 t) (rw (new, lookup-insert_self key val m) refl))
  | inr f ↦
      rw (f, lookup-merge mmap (insert key val m) d a once, lookup-insert_ne key a val m f) refl
]

All-merge :
    (n : ℕ) (mmap m : Map String ℕ)
    → All (λ e. e.1 < n) mmap
    → All (λ e. e.1 < n) m
    → All (λ e. e.1 < n) (merge mmap m)
unfolding merge
All-merge n [] m small small' = small'
All-merge n ((key, val) ∷ mmap) m (first, rest) small' =
    All-merge n mmap (insert key val m) rest (All-insert n key val m first small')

merge-HasKeysOnce : (mmap m : Map String ℕ) → HasKeysOnce m → HasKeysOnce (merge mmap m)
unfolding merge
merge-HasKeysOnce [] m once = once
merge-HasKeysOnce ((key, val) ∷ mmap) m once =
    merge-HasKeysOnce mmap (insert key val m) (insert-HasKeysOnce key val m once)

no_vertices :
    (shard_num : ℕ)
    → 0 < shard_num
    → (pm : Map String ℕ) → All (λ e. e.1 < shard_num) pm
    → SoundAt shard_num [] pm (replicate shard_num (pos 0))
unfolding vertex_count
no_vertices shard_num some_shards pm small = record {
  has_shards = some_shards;
  in_range = small;
  vertices_once = tt;
  counters_length = length-replicate shard_num (pos 0);
  counters = λ j. zeros shard_num j;
}

clpa_map_send-upto :
    (m : Map String ℕ) (i n : ℕ)
    → clpa_map_send i n m ≡ map (λ sid. (sid, record { partition_modified = m })) (upto i n)
unfolding clpa_map_send
clpa_map_send-upto m i zero = refl
clpa_map_send-upto m i (suc n) =
    ap (◌∷◌ (i, record { partition_modified = m })) (clpa_map_send-upto m (suc i) n)

module _ (lib : Library) (shard_num : ℕ) where
  -- `Addr2Shard` does not stop at the sender or at the recipient.
  abbrev pub HaveShards : Transaction → Type 0
  HaveShards tx =
      (is_some (addr2shard lib shard_num tx.sender) ≡ true)
      × (is_some (addr2shard lib shard_num tx.recipient) ≡ true)

  -- A report whose transactions have such addresses.
  abbrev pub IsReadable : BlockInfoMsg → Type 0
  IsReadable b = All HaveShards b.inner_shard_txs × All HaveShards b.relay2_txs

  abbrev pub IsReadableEvent : ClpaEvent → Type 0
  IsReadableEvent due = Unit
  IsReadableEvent (reported epoch b) = IsReadable b

module _ {F : Type 0} (lib : Library) (shard_num : ℕ) where
  -- The graph's map and the map that the committee sends by agree on every account, and name shards that exist.
  pub record IsPlaced (ccm : ClpaCommittee F) : Type 0 where
    pub graph_sound : IsSound (ccm.clpa_graph)
    pub graph_shards : ccm.clpa_graph.shard_num ≡ shard_num
    pub agree :
        (a : String)
        → or_zero (lookup a ccm.clpa_graph.partition_map) (default_shard lib shard_num a)
          ≡ account_shard lib shard_num a ccm
    pub modified_once : HasKeysOnce ccm.modified_map
    pub modified_in_range : All (λ e. e.1 < shard_num) ccm.modified_map

  pub new_clpa_committee-IsPlaced :
      (half_weight : F) → 0 < shard_num → IsPlaced (new_clpa_committee half_weight shard_num)
  unfolding new_clpa_committee account_shard
  new_clpa_committee-IsPlaced half_weight some_shards = record {
    graph_sound = no_vertices shard_num some_shards [] tt;
    graph_shards = refl;
    agree = λ a. refl;
    modified_once = tt;
    modified_in_range = tt;
  }

  clpa_reset-IsPlaced :
      (half_weight : F) (ccm : ClpaCommittee F)
      → 0 < shard_num
      → HasKeysOnce ccm.modified_map
      → All (λ e. e.1 < shard_num) ccm.modified_map
      → IsPlaced (clpa_reset half_weight shard_num ccm)
  unfolding clpa_reset account_shard
  clpa_reset-IsPlaced half_weight ccm some_shards once small = record {
    graph_sound =
        no_vertices shard_num some_shards (merge ccm.modified_map [])
          (All-merge shard_num ccm.modified_map [] small tt);
    graph_shards = refl;
    agree = λ a. lookup-merge ccm.modified_map [] (default_shard lib shard_num a) a once;
    modified_once = once;
    modified_in_range = small;
  }

  -- One edge, and what is done after it.
  pub then_edge :
      (u v : String) (cs : ClpaState F) (next : ClpaState F → Option (ClpaState F))
      → is_some (addr2shard lib shard_num u) ≡ true
      → is_some (addr2shard lib shard_num v) ≡ true
      → 0 < shard_num
      → IsSound cs
      → cs.shard_num ≡ shard_num
      → ((cs' : ClpaState F)
          → IsSound cs'
          → cs'.shard_num ≡ shard_num
          → Gives (Grown (default_shard lib shard_num) cs') (next cs'))
      → Gives
          (Grown (default_shard lib shard_num) cs)
          (clpa_add_edge (addr2shard lib shard_num) u v cs >>= next)
  then_edge u v cs next found_u found_v some_shards sound same rest =
      Gives-bind (Grown (default_shard lib shard_num) cs) (Grown (default_shard lib shard_num) cs)
        (clpa_add_edge (addr2shard lib shard_num) u v cs) next
        (clpa_add_edge-Grown (default_shard lib shard_num) (addr2shard lib shard_num) u v cs
          (found u found_u) (found v found_v) sound
          (λ a. subst (λ n. default_shard lib shard_num a < n) (sym same) (default_shard-small a)))
        (λ cs' g.
          Gives-map (Grown (default_shard lib shard_num) cs')
            (Grown (default_shard lib shard_num) cs) _ (rest cs' g.sound (g.same_shards ∙ same))
            (λ cs'' g'. Grown-trans (default_shard lib shard_num) cs cs' cs'' g g'))
    where
      found :
          (a : String)
          → is_some (addr2shard lib shard_num a) ≡ true
          → addr2shard lib shard_num a ≡ some (default_shard lib shard_num a)
      found a h = unfold default_shard in or_else-or_zero none (addr2shard lib shard_num a) h

      small_if : (o : Option ℕ) → or_zero (o >>= λ num. some (num % shard_num)) 0 < shard_num
      small_if none = some_shards
      small_if (some num) = omega (arith, some_shards)

      default_shard-small : (a : String) → default_shard lib shard_num a < shard_num
      default_shard-small a = unfold default_shard addr2shard in small_if _

  add_edges-Grown :
      0 < shard_num
      → (txs : List Transaction) (cs : ClpaState F) → All (HaveShards lib shard_num) txs
      → IsSound cs
      → cs.shard_num ≡ shard_num
      → Gives (Grown (default_shard lib shard_num) cs) (add_edges lib shard_num txs cs)
  unfolding add_edges
  add_edges-Grown some_shards [] cs homes sound same =
      Grown-refl (default_shard lib shard_num) cs sound
  add_edges-Grown some_shards (tx ∷ txs) cs ((from, to), homes) sound same =
      then_edge tx.sender tx.recipient cs (λ cs'. add_edges lib shard_num txs cs') from to
        some_shards sound same
        (λ cs' sound' same'. add_edges-Grown some_shards txs cs' homes sound' same')

  -- A later epoch, and a grown graph.
  pub Grown-IsPlaced :
      (ccm : ClpaCommittee F) (epoch : ℕ) (graph : ClpaState F)
      → IsPlaced ccm
      → Grown (default_shard lib shard_num) (ccm.clpa_graph) graph
      → IsPlaced (record ccm { cur_epoch = epoch; clpa_graph = graph })
  unfolding account_shard
  Grown-IsPlaced ccm epoch graph placed g = record {
    graph_sound = g.sound;
    graph_shards = g.same_shards ∙ placed.graph_shards;
    agree = λ a. g.placed a ∙ placed.agree a;
    modified_once = placed.modified_once;
    modified_in_range = placed.modified_in_range;
  }

  pub handle_block_info-IsPlaced :
      (epoch : ℕ) (b : BlockInfoMsg) (ccm : ClpaCommittee F)
      → 0 < shard_num
      → IsReadable lib shard_num b
      → IsPlaced ccm
      → Gives
          (λ ccm'. IsPlaced ccm' × (ccm'.modified_map ≡ ccm.modified_map))
          (handle_block_info lib shard_num epoch b ccm)
  unfolding handle_block_info account_shard
  handle_block_info-IsPlaced epoch b ccm some_shards readable placed =
      Gives-if Kept (nat_beq b.block_body_length 0) _ _
        (λ _. (
          Grown-IsPlaced ccm epoch' (ccm.clpa_graph) placed
              (Grown-refl here (ccm.clpa_graph) placed.graph_sound),
          refl,
        ))
        (λ _.
          Gives-bind (Grown here (ccm.clpa_graph)) Kept
            (add_edges lib shard_num b.inner_shard_txs ccm.clpa_graph) _
            (add_edges-Grown some_shards b.inner_shard_txs (ccm.clpa_graph) (readable.0)
              placed.graph_sound placed.graph_shards)
            (λ inner g.
              Gives-bind (Grown here inner) Kept (add_edges lib shard_num b.relay2_txs inner) _
                (add_edges-Grown some_shards b.relay2_txs inner (readable.1) g.sound
                  (g.same_shards ∙ placed.graph_shards))
                (λ both g'. (
                  Grown-IsPlaced ccm epoch' both placed
                      (Grown-trans here (ccm.clpa_graph) inner both g g'),
                  refl,
                ))))
    where
      here : String → ℕ
      here a = default_shard lib shard_num a

      epoch' : ℕ
      epoch' = if nat_beq (ccm.cur_epoch + 1) epoch then epoch else ccm.cur_epoch

      Kept : ClpaCommittee F → Type 0
      Kept ccm' = IsPlaced ccm' × (ccm'.modified_map ≡ ccm.modified_map)

  -- A round's messages carry one map to all shards, and the committee sends by it from then on.
  pub record Follows (ccm : ClpaCommittee F) (msgs : List (ℕ × PartitionModifiedMap))
      (ccm' : ClpaCommittee F) : Type 0 where
    pub mmap : Map String ℕ
    pub told : msgs ≡ map (λ sid. (sid, record { partition_modified = mmap })) (upto 0 shard_num)
    pub follows :
        (a : String)
        → account_shard lib shard_num a ccm'
          ≡ or_zero (lookup a mmap) (account_shard lib shard_num a ccm)

  -- From a state whose graph is sound and agrees with the map that the committee sends by, and where the
  -- loops visit vertices of the graph only, a partition round does not panic. Each shard, from 0 to the
  -- last, is sent one message, with one and the same map, and the committee sends by it from then on: an
  -- account is where the map puts it, or where it was. The graph after the reset is sound and agrees with
  -- the map again, which names only shards that exist.
  pub clpa_round-Follows :
      (half_weight : F) (ops : Floats F) (order : ℕ → List String) (ccm : ClpaCommittee F)
      → IsPlaced ccm
      → ((k : ℕ) → All (λ v. has_vertex v ccm.clpa_graph.net_graph ≡ true) (order k))
      → Gives
          (λ (msgs, ccm'). IsPlaced ccm' × Follows ccm msgs ccm')
          (clpa_round half_weight shard_num ops order ccm)
  unfolding clpa_round account_shard
  clpa_round-Follows half_weight ops order ccm placed fits =
      Gives-bind Result Kept (clpa_partition ops order ccm.clpa_graph) _
        (clpa_partition-Repartitioned ops order (ccm.clpa_graph) placed.graph_sound fits)
        (λ (mmap, cross, graph) r.
          let small = subst (λ n. All (λ e. e.1 < n) mmap) placed.graph_shards r.res_in_range in
          (
            clpa_reset-IsPlaced half_weight
                (record ccm { clpa_graph = graph; modified_map = merge mmap ccm.modified_map })
                (subst (λ n. 0 < n) placed.graph_shards placed.graph_sound.has_shards)
                (merge-HasKeysOnce mmap ccm.modified_map placed.modified_once)
                (All-merge shard_num mmap ccm.modified_map small placed.modified_in_range),
            record {
              mmap = mmap;
              told = clpa_map_send-upto mmap 0 shard_num;
              follows = λ a.
                  lookup-merge mmap ccm.modified_map (default_shard lib shard_num a) a r.res_once;
            },
          ))
    where
      Result : Map String ℕ × ℤ × ClpaState F → Type 0
      Result (res, cross, done) = Repartitioned (ccm.clpa_graph) res done

      Kept : List (ℕ × PartitionModifiedMap) × ClpaCommittee F → Type 0
      Kept (msgs, ccm') = IsPlaced ccm' × Follows ccm msgs ccm'

  -- The run's result, and its state.
  abbrev pub EndsPlaced : {A : Type 0} → A × ClpaCommittee F → Type 0
  EndsPlaced (msgs, ccm) = IsPlaced ccm

  module _ (half_weight : F) (ops : Floats F) (order : Graph → ℕ → List String)
      (fits : (g : Graph) (k : ℕ) → All (λ v. has_vertex v g ≡ true) (order g k))
      (some_shards : 0 < shard_num) where
    clpa_step-IsPlaced :
        (event : ClpaEvent) (ccm : ClpaCommittee F)
        → IsReadableEvent lib shard_num event
        → IsPlaced ccm
        → Gives EndsPlaced (clpa_step half_weight ops order lib shard_num event ccm)
    unfolding clpa_step
    clpa_step-IsPlaced due ccm readable placed =
        Gives-map _ EndsPlaced _
          (clpa_round-Follows half_weight ops (order ccm.clpa_graph.net_graph) ccm placed
            (fits ccm.clpa_graph.net_graph))
          (λ (msgs, ccm') kept. kept.0)
    clpa_step-IsPlaced (reported epoch b) ccm readable placed =
        Gives-bind _ EndsPlaced (handle_block_info lib shard_num epoch b ccm) _
          (handle_block_info-IsPlaced epoch b ccm some_shards readable placed) (λ ccm' kept. kept.0)

    clpa_run-IsPlaced :
        (events : List ClpaEvent) (ccm : ClpaCommittee F)
        → All (IsReadableEvent lib shard_num) events
        → IsPlaced ccm
        → Gives EndsPlaced (clpa_run half_weight ops order lib shard_num events ccm)
    unfolding clpa_run
    clpa_run-IsPlaced [] ccm readable placed = placed
    clpa_run-IsPlaced (event ∷ events) ccm (here, later_on) placed =
        Gives-bind EndsPlaced EndsPlaced (clpa_step half_weight ops order lib shard_num event ccm) _
          (clpa_step-IsPlaced event ccm here placed)
          (λ (msgs, ccm') placed'.
            Gives-bind EndsPlaced EndsPlaced
              (clpa_run half_weight ops order lib shard_num events ccm') _
              (clpa_run-IsPlaced events ccm' later_on placed') (λ (later, done) end. end))

    -- With at least one shard, where the loops visit vertices of the graph only and Addr2Shard stops at no
    -- sender or recipient in the reports, no order of reports of blocks and partition rounds makes a new
    -- CLPA committee panic. In the state it ends in the counters of the graph are exact, and the graph
    -- puts every account where the committee sends the account's transactions.
    pub new_clpa_committee-EndsPlaced :
        (events : List ClpaEvent)
        → All (IsReadableEvent lib shard_num) events
        → Gives EndsPlaced (
            clpa_run half_weight ops order lib shard_num events
              (new_clpa_committee half_weight shard_num))
    new_clpa_committee-EndsPlaced events readable =
        clpa_run-IsPlaced events (new_clpa_committee half_weight shard_num) readable
          (new_clpa_committee-IsPlaced half_weight some_shards)
