-- ===== src/Migration/Rounds/Steps.antt =====
-- The invariant under each step, and along a run.
use blbchain.Base.{
  ℕ, ◌<◌, ◌≡◌, refl, sym, ap, ◌∙◌, subst, true, false, none, some, ◌>>=◌, string_eq, nat_eq, lookup,
  HasKeysOnce,
}
use blbchain.Chain.State.{Library}
use blbchain.Migration.{
  ClpaData, ClpaNode, new_clpa_data, send_partition_ready, get_partition_ready,
  send_accounts_and_txs,
}
use blbchain.Migration.Activation.{handle_partition_msg, propose_partition, account_transfer_do}
use blbchain.Migration.Rounds.{
  Run, Phase, idle, waits_ready, waits_collect, Event, begins, sends, proposes, partition_msg,
  partition_ready, account_state_and_tx, activates, step, IsFrom, Reach, here, next, begin_step,
  send_step, propose_step, to_phase,
}
use blbchain.Migration.Rounds.Full.{AllBelow}
use blbchain.Migration.Rounds.Invariant.{
  Inv, keep_Inv, send_partition_ready-Inv, handle_partition_ready-Inv,
  handle_account_state_and_tx_msg-Inv, account_transfer_do-Inv, send_accounts_and_txs-Inv,
  propose_partition-Inv,
}
use blbchain.Chain.Blocks.Linked.{IfSome, IfSome-bind, IfSome-if}

module _ (lib : Library) (shard num : ℕ) where
  abbrev RunInv : Run → Type 0
  RunInv r = Inv shard num r.node

  begin_step-Inv :
      shard < num
      → (phase : Phase) (p : ClpaNode) → Inv shard num p
      → IfSome RunInv (begin_step lib phase p)
  unfolding begin_step
  begin_step-Inv small idle p h =
      IfSome-if RunInv p.cdm.partition_on (some (to_phase waits_ready (send_partition_ready p).1))
        none (λ _. send_partition_ready-Inv small p h) (λ _. tt)
  begin_step-Inv small waits_ready p h = tt
  begin_step-Inv small waits_collect p h = tt

  send_step-Inv :
      (phase : Phase) (p : ClpaNode) → Inv shard num p → IfSome RunInv (send_step lib phase p)
  unfolding send_step
  send_step-Inv idle p h = tt
  send_step-Inv waits_ready p h =
      IfSome-if RunInv (get_partition_ready p)
        (send_accounts_and_txs lib p >>= λ s. some (to_phase waits_collect s.1)) none
        (λ _.
          IfSome-bind RunInv (send_accounts_and_txs lib p) _
            (λ s e. subst (IfSome (λ q. Inv shard num q.1)) e (send_accounts_and_txs-Inv lib p h)))
        (λ _. tt)
  send_step-Inv waits_collect p h = tt

  propose_step-Inv :
      (now : ℕ) (phase : Phase) (p : ClpaNode)
      → Inv shard num p
      → IfSome RunInv (propose_step lib now phase p)
  unfolding propose_step
  propose_step-Inv now idle p h = tt
  propose_step-Inv now waits_ready p h = tt
  propose_step-Inv now waits_collect p h =
      IfSome-if RunInv p.cdm.collect_over
        (propose_partition now p >>= λ s. some (to_phase idle s.1)) none
        (λ _.
          IfSome-bind RunInv (propose_partition now p) _
            (λ s e. subst (IfSome (λ q. Inv shard num q.1)) e (propose_partition-Inv lib now p h)))
        (λ _. tt)

  step-Inv :
      shard < num
      → (e : Event) (r : Run) → IsFrom lib shard num e
      → RunInv r
      → IfSome RunInv (step lib e r)
  unfolding step
  step-Inv small begins r f h = begin_step-Inv small r.phase r.node h
  step-Inv small sends r f h = send_step-Inv r.phase r.node h
  step-Inv small (proposes now) r f h = propose_step-Inv now r.phase r.node h
  step-Inv small (partition_msg m) r f h =
      unfold handle_partition_msg in keep_Inv refl refl refl refl refl h
  step-Inv small (partition_ready pr) r f h = handle_partition_ready-Inv pr r.node f h
  step-Inv small (account_state_and_tx at) r f h =
      handle_account_state_and_tx_msg-Inv at r.node f.0 f.1 h
  step-Inv small (activates atm) r f h =
      IfSome-bind RunInv (account_transfer_do lib atm r.node) (λ p. some (record r { node = p }))
        (λ p e. subst (IfSome (λ q. Inv shard num q)) e (account_transfer_do-Inv lib atm r.node h))

  pub Reach-Inv : shard < num → {r q : Run} → RunInv r → Reach lib shard num r q → RunInv q
  Reach-Inv small h here = h
  Reach-Inv small h (next {q} e run from went) =
      subst (IfSome RunInv) went (step-Inv small e q from (Reach-Inv small h run))

  pub new_clpa_data-Inv :
      (p : ClpaNode)
      → p.chain.shard_id ≡ shard
      → p.chain.shard_num ≡ num
      → p.cdm ≡ new_clpa_data
      → Inv shard num p
  unfolding new_clpa_data
  new_clpa_data-Inv p es en ed = record {
    own = es;
    shards = en;
    ready_once = subst (λ (d : ClpaData). HasKeysOnce d.partition_ready) (sym ed) tt;
    ready_below = subst (λ (d : ClpaData). AllBelow num d.partition_ready) (sym ed) tt;
    got_once = subst (λ (d : ClpaData). HasKeysOnce d.account_state_tx) (sym ed) tt;
    got_below = subst (λ (d : ClpaData). AllBelow num d.account_state_tx) (sym ed) tt;
    got_others =
        subst (λ (d : ClpaData). lookup shard d.account_state_tx ≡ none) (sym ed)
          (unfold lookup in refl);
    over = λ e. absurd (false≢true (sym (ap (λ (d : ClpaData). d.collect_over) ed) ∙ e));
  }
    where
      false≢true : ¬ (false ≡ true)
      false≢true h = cc
