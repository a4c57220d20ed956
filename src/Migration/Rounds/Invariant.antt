-- ===== src/Migration/Rounds/Invariant.antt =====
-- The invariant of the round's data, and each operation under it.
use blbchain.Base.{
  get_elem?, ℕ, ◌+◌, ◌≤◌, ◌<◌, ◌≡◌, ◌≢◌, refl, sym, ap, ◌∙◌, subst, inl, inr, true, ◌||◌, none,
  List, [], ◌∷◌, String, string_eq, nat_eq, nat_beq, nat_beq_iff, Bool-cases, beq_false, Map,
  lookup, insert, lookup-insert_ne, HasKeysOnce, insert-HasKeysOnce, length, arith,
}
use blbchain.Chain.State.{Library, BlockChain, update_partition_map, send_tx2pool}
use blbchain.Core.Block.{AccountState}
use blbchain.Chain.Blocks.{updated_trie, add_accounts, fetch_accounts, open_trie, put_accounts}
use blbchain.Migration.{
  AccountTransferMsg, PartitionReady, AccountStateAndTx, ClpaNode, send_partition_ready,
  send_accounts_and_txs, last_map, accounts_to_fetch, send_loop,
}
use blbchain.Migration.Activation.{
  handle_partition_ready, handle_account_state_and_tx_msg, propose_partition, account_transfer_do,
  update_all, collect, all_ours,
}
use blbchain.Migration.Rounds.Full.{AllBelow, insert-AllBelow, length-insert}
use blbchain.Chain.Blocks.Linked.{IfSome, IfSome-bind, IfSome-if}

-- The data of the round fit the node's shard and the number of shards.
pub record Inv (shard num : ℕ) (p : ClpaNode) : Type 0 where
  pub own : p.chain.shard_id ≡ shard
  pub shards : p.chain.shard_num ≡ num
  pub ready_once : HasKeysOnce p.cdm.partition_ready
  pub ready_below : AllBelow num p.cdm.partition_ready
  pub got_once : HasKeysOnce p.cdm.account_state_tx
  pub got_below : AllBelow num p.cdm.account_state_tx
  pub got_others : lookup shard p.cdm.account_state_tx ≡ none
  pub over : p.cdm.collect_over ≡ true → num ≤ length p.cdm.account_state_tx + 1

module _ {shard num : ℕ} where
  -- What the invariant reads.
  pub keep_Inv :
      {p p' : ClpaNode}
      → p'.chain.shard_id ≡ p.chain.shard_id
      → p'.chain.shard_num ≡ p.chain.shard_num
      → p'.cdm.partition_ready ≡ p.cdm.partition_ready
      → p'.cdm.account_state_tx ≡ p.cdm.account_state_tx
      → p'.cdm.collect_over ≡ p.cdm.collect_over
      → Inv shard num p
      → Inv shard num p'
  keep_Inv own shards ready got over h = record {
    own = own ∙ h.own;
    shards = shards ∙ h.shards;
    ready_once = subst (λ m. HasKeysOnce m) (sym ready) h.ready_once;
    ready_below = subst (λ m. AllBelow num m) (sym ready) h.ready_below;
    got_once = subst (λ m. HasKeysOnce m) (sym got) h.got_once;
    got_below = subst (λ m. AllBelow num m) (sym got) h.got_below;
    got_others = subst (λ m. lookup shard m ≡ none) (sym got) h.got_others;
    over = λ e. subst (λ m. num ≤ length m + 1) (sym got) (h.over (sym over ∙ e));
  }

  pub send_partition_ready-Inv :
      shard < num → (p : ClpaNode) → Inv shard num p → Inv shard num (send_partition_ready p).1
  unfolding send_partition_ready
  send_partition_ready-Inv small p h = record {
    own = h.own;
    shards = h.shards;
    ready_once = insert-HasKeysOnce p.chain.shard_id true p.cdm.partition_ready h.ready_once;
    ready_below =
        insert-AllBelow num p.chain.shard_id true p.cdm.partition_ready
          (subst (λ s. s < num) (sym h.own) small) h.ready_below;
    got_once = h.got_once;
    got_below = h.got_below;
    got_others = h.got_others;
    over = h.over;
  }

  pub handle_partition_ready-Inv :
      (pr : PartitionReady) (p : ClpaNode)
      → pr.from_shard < num
      → Inv shard num p
      → Inv shard num (handle_partition_ready pr p)
  unfolding handle_partition_ready
  handle_partition_ready-Inv pr p small h = record {
    own = h.own;
    shards = h.shards;
    ready_once = insert-HasKeysOnce pr.from_shard true p.cdm.partition_ready h.ready_once;
    ready_below = insert-AllBelow num pr.from_shard true p.cdm.partition_ready small h.ready_below;
    got_once = h.got_once;
    got_below = h.got_below;
    got_others = h.got_others;
    over = h.over;
  }

  pub handle_account_state_and_tx_msg-Inv :
      (at : AccountStateAndTx) (p : ClpaNode)
      → at.from_shard < num
      → at.from_shard ≢ shard
      → Inv shard num p
      → Inv shard num (handle_account_state_and_tx_msg at p)
  unfolding handle_account_state_and_tx_msg
  handle_account_state_and_tx_msg-Inv at p small other h = record {
    own = h.own;
    shards = h.shards;
    ready_once = h.ready_once;
    ready_below = h.ready_below;
    got_once = insert-HasKeysOnce at.from_shard at p.cdm.account_state_tx h.got_once;
    got_below = insert-AllBelow num at.from_shard at p.cdm.account_state_tx small h.got_below;
    got_others =
        lookup-insert_ne at.from_shard shard at p.cdm.account_state_tx
          (beq_false at.from_shard shard other)
        ∙ h.got_others;
    over = λ e. elim (Bool-cases (nat_beq (length got + 1) p.chain.shard_num)) [
      | inl t ↦ omega (arith, (nat_beq_iff _ _).0 t, h.shards)
      | inr f ↦ omega (
        arith,
        h.over (sym (ap (λ b. b || p.cdm.collect_over) f) ∙ e),
        length-insert at.from_shard at p.cdm.account_state_tx,
      )
    ];
  }
    where
      got : Map ℕ AccountStateAndTx
      got = insert at.from_shard at p.cdm.account_state_tx

module _ (lib : Library) where
  abbrev SameShard : BlockChain → BlockChain → Type 0
  SameShard bc bc' = (bc'.shard_id ≡ bc.shard_id) × (bc'.shard_num ≡ bc.shard_num)

  update_all-SameShard : (m : Map String ℕ) (bc : BlockChain) → SameShard bc (update_all m bc)
  unfolding update_all update_partition_map
  update_all-SameShard [] bc = (refl, refl)
  update_all-SameShard ((key, val) ∷ m) bc =
      update_all-SameShard m (update_partition_map key val bc)

  updated_trie-SameShard :
      (addrs : List String) (states : List AccountState) (bc : BlockChain)
      → IfSome (λ r. SameShard bc r.1) (updated_trie lib addrs states bc)
  unfolding updated_trie
  updated_trie-SameShard [] states bc = (refl, refl)
  updated_trie-SameShard (addr ∷ addrs) states bc = IfSome-bind _ (open_trie lib bc) _ (λ st e.
      IfSome-bind _ (put_accounts lib bc (addr ∷ addrs) states st) _ (λ st' e'. (refl, refl)))

  add_accounts-SameShard :
      (addrs : List String) (states : List AccountState) (bc : BlockChain)
      → IfSome (SameShard bc) (add_accounts lib addrs states bc)
  unfolding add_accounts updated_trie
  add_accounts-SameShard [] states bc = (refl, refl)
  add_accounts-SameShard (addr ∷ addrs) states bc =
      IfSome-bind _ (updated_trie lib (addr ∷ addrs) states bc) _ (λ r e.
        subst (IfSome (λ q. SameShard bc q.1)) e (updated_trie-SameShard (addr ∷ addrs) states bc))

module _ {shard num : ℕ} (lib : Library) where
  pub account_transfer_do-Inv :
      (atm : AccountTransferMsg) (p : ClpaNode)
      → Inv shard num p
      → IfSome (λ p'. Inv shard num p') (account_transfer_do lib atm p)
  unfolding account_transfer_do
  account_transfer_do-Inv atm p h =
      let bc = update_all atm.modified_map p.chain in
      let (own, shards) = update_all-SameShard lib atm.modified_map p.chain in
      IfSome-bind _ (add_accounts lib atm.addrs atm.account_state bc) _ (λ bc' e.
        let (own', shards') =
          subst (IfSome (SameShard lib bc)) e
            (add_accounts-SameShard lib atm.addrs atm.account_state bc) in
        record {
          own = own' ∙ own ∙ h.own;
          shards = shards' ∙ shards ∙ h.shards;
          ready_once = tt;
          ready_below = tt;
          got_once = tt;
          got_below = tt;
          got_others = unfold lookup in refl;
          over = λ f. cc;
        })

  pub send_accounts_and_txs-Inv :
      (p : ClpaNode)
      → Inv shard num p
      → IfSome (λ s. Inv shard num s.1) (send_accounts_and_txs lib p)
  unfolding send_accounts_and_txs
  send_accounts_and_txs-Inv p h = IfSome-bind _ (last_map p.cdm.modified_map) _ (λ modified em.
      IfSome-bind _ (accounts_to_fetch lib p.chain modified) _ (λ addrs ea.
        IfSome-bind _ (fetch_accounts lib addrs p.chain) _ (λ states es.
          IfSome-bind _
            (send_loop p.chain.shard_id modified addrs states 0 p.chain.shard_num
              p.chain.tx_pool.tx_queue)
            _ (λ r er. keep_Inv refl refl refl refl refl h))))

  pub propose_partition-Inv :
      (now : ℕ) (p : ClpaNode)
      → Inv shard num p
      → IfSome (λ s. Inv shard num s.1) (propose_partition now p)
  unfolding propose_partition send_tx2pool
  propose_partition-Inv now p h =
      IfSome-bind _
        (collect p.cdm.account_state_tx p.cdm.received_new_account_state p.cdm.received_new_tx) _
        (λ r er.
          IfSome-bind _ (get_elem? p.cdm.modified_map p.cdm.account_transfer_round) _
            (λ modified em.
              IfSome-if _ (all_ours p.chain.shard_id modified r.1) _ _
                (λ _. keep_Inv refl refl refl refl refl h) (λ _. tt)))
