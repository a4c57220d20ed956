-- ===== src/Migration/Rounds/Complete.antt =====
-- When the main node leaves its two loops.
use blbchain.Base.{
  ℕ, ◌<◌, ◌≡◌, ◌≢◌, sym, ◌∙◌, subst, Bool, true, ◌&&◌, none, some, ◌>>=◌, [], string_eq, nat_eq,
  nat_beq_iff, beq_false, lookup, insert, lookup-insert_ne, insert-HasKeysOnce, length, arith,
}
use blbchain.Chain.State.{Library}
use blbchain.Migration.{
  AccountStateAndTx, ClpaNode, new_clpa_data, get_partition_ready, send_accounts_and_txs,
}
use blbchain.Migration.Activation.{propose_partition}
use blbchain.Migration.Rounds.{
  Run, Phase, idle, waits_ready, waits_collect, sends, proposes, step, Reach, send_step,
  propose_step, to_phase,
}
use blbchain.Migration.Rounds.Full.{HasKeysOnce-full, insert-AllBelow, length-insert_new}
use blbchain.Migration.Rounds.Invariant.{Inv}
use blbchain.Chain.Blocks.Linked.{IfSome, IfSome-bind, IfSome-if}
use blbchain.Migration.Rounds.Steps.{Reach-Inv, new_clpa_data-Inv}

module _ (lib : Library) (shard num : ℕ) where
  sent_ready :
      (phase : Phase) (p : ClpaNode)
      → IfSome (λ q. get_partition_ready p ≡ true) (send_step lib phase p)
  unfolding send_step
  sent_ready idle p = tt
  sent_ready waits_ready p =
      IfSome-if _ (get_partition_ready p)
        (send_accounts_and_txs lib p >>= λ s. some (to_phase waits_collect s.1)) none
        (λ t. IfSome-bind _ (send_accounts_and_txs lib p) _ (λ s e. t)) (λ _. tt)
  sent_ready waits_collect p = tt

  proposed_over :
      (now : ℕ) (phase : Phase) (p : ClpaNode)
      → IfSome (λ q. p.cdm.collect_over ≡ true) (propose_step lib now phase p)
  unfolding propose_step
  proposed_over now idle p = tt
  proposed_over now waits_ready p = tt
  proposed_over now waits_collect p =
      IfSome-if _ p.cdm.collect_over (propose_partition now p >>= λ s. some (to_phase idle s.1))
        none (λ t. IfSome-bind _ (propose_partition now p) _ (λ s e. t)) (λ _. tt)

  get_partition_ready-all :
      (p : ClpaNode)
      → Inv shard num p
      → get_partition_ready p ≡ true
      → (i : ℕ) → i < num
      → (b : Bool) × (lookup i p.cdm.partition_ready ≡ some b)
  unfolding get_partition_ready
  get_partition_ready-all p h ready =
      HasKeysOnce-full num p.cdm.partition_ready h.ready_once h.ready_below (
        omega (
          arith,
          (nat_beq_iff (length p.cdm.partition_ready) p.chain.shard_num).0 (first _ _ ready),
          h.shards,
        ))
    where
      first : (a b : Bool) → (a && b) ≡ true → a ≡ true
      first a b e = ground arith

  collect_over-all :
      shard < num
      → (p : ClpaNode) → Inv shard num p
      → p.cdm.collect_over ≡ true
      → (i : ℕ) → i < num
      → i ≢ shard
      → (at : AccountStateAndTx) × (lookup i p.cdm.account_state_tx ≡ some at)
  collect_over-all small p h over i below other =
      let got = p.cdm.account_state_tx in
      let own : AccountStateAndTx = record {
        addrs = [];
        account_state = [];
        txs = [];
        from_shard = shard;
      } in
      let (at, e) =
        HasKeysOnce-full num (insert shard own got) (insert-HasKeysOnce shard own got h.got_once)
          (insert-AllBelow num shard own got small h.got_below)
          (omega (arith, h.over over, length-insert_new shard own got h.got_others)) i below in
      (
        at,
        sym (lookup-insert_ne shard i own got (beq_false shard i (λ same. other (sym same)))) ∙ e,
      )

  -- Let a main node start with no data of a transfer, in a shard that there is, and let messages name
  -- shards that there are, those with accounts other shards than its own. Then, after any steps of the
  -- proposer and the handlers in any order, the step that sends the accounts happens only when every shard
  -- has said that it is ready, and the step that proposes the partition only when the message of
  -- every other shard has come.
  pub Reach-complete :
      shard < num
      → (r q : Run) → r.node.chain.shard_id ≡ shard
      → r.node.chain.shard_num ≡ num
      → r.node.cdm ≡ new_clpa_data
      → Reach lib shard num r q
      → ((q' : Run)
          → step lib sends q ≡ some q'
          → (i : ℕ) → i < num
          → (b : Bool) × (lookup i q.node.cdm.partition_ready ≡ some b))
        × ((now : ℕ) (q' : Run)
            → step lib (proposes now) q ≡ some q'
            → (i : ℕ) → i < num
            → i ≢ shard
            → (at : AccountStateAndTx) × (lookup i q.node.cdm.account_state_tx ≡ some at))
  unfolding step
  Reach-complete small r q es en ed run =
      let h = Reach-Inv lib shard num small (new_clpa_data-Inv lib shard num r.node es en ed) run in
      (
        λ q' went. get_partition_ready-all q.node h (
            subst (IfSome (λ _. get_partition_ready q.node ≡ true)) went
              (sent_ready q.phase q.node)),
        λ now q' went. collect_over-all small q.node h (
            subst (IfSome (λ _. q.node.cdm.collect_over ≡ true)) went
              (proposed_over now q.phase q.node)),
      )
