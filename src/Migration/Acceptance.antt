-- ===== src/Migration/Acceptance.antt =====
-- `proposePartition` on what other shards' `sendAccounts_and_Txs` sends.
use blbchain.Base.{
  String, string_eq, ℕ, ◌≡◌, refl, sym, ap, ◌∙◌, subst, inl, inr, Bool, true, false, ◌&&◌, nat_eq,
  nat_beq, some, >>=-some, List, [], ◌∷◌, ◌++◌, append_assoc, append-nil, map, Map, insert, length,
  get_elem?, filterb, All, Bool-cases, arith,
}
use blbchain.Core.Transaction.{Transaction}
use blbchain.Core.Block.{AccountState}
use blbchain.Chain.State.{send_tx2pool}
use blbchain.Migration.{AccountTransferMsg, AccountStateAndTx, ClpaNode, new_shard, has_addr}
use blbchain.Migration.Activation.{put_states, collect, is_ours, all_ours, propose_partition}
use blbchain.Migration.Sending.{owner, goes_to, sent_to}

put_states-map :
    (f : String → AccountState) (addrs : List String) (m : Map String AccountState)
    → (m' : Map String AccountState) × (put_states addrs (map f addrs) m ≡ some m')
unfolding put_states
put_states-map f [] m = (m, refl)
put_states-map f (a ∷ addrs) m = put_states-map f addrs (insert a (f a) m)

is_ours-owner :
    (shard : ℕ) (modified : Map String ℕ) (tx : Transaction)
    → is_ours shard modified tx ≡ nat_beq (new_shard modified (owner tx)) shard
unfolding is_ours
is_ours-owner shard modified tx = elim (Bool-cases tx.relayed) [
  | inl t ↦ rw t refl
  | inr f ↦ rw f refl
]

all_ours-append :
    (shard : ℕ) (modified : Map String ℕ) (xs ys : List Transaction)
    → all_ours shard modified xs ≡ true
    → all_ours shard modified ys ≡ true
    → all_ours shard modified (xs ++ ys) ≡ true
unfolding all_ours
all_ours-append shard modified [] ys h k = k
all_ours-append shard modified (x ∷ xs) ys h k = elim (Bool-cases (is_ours shard modified x)) [
  | inl t ↦ rw t (all_ours-append shard modified xs ys (sym (rw t refl) ∙ h) k)
  | inr f ↦ absurd (true≢false (sym h ∙ rw f refl))
]
  where
    true≢false : ¬ (true ≡ false)
    true≢false e = cc

abbrev pub all_txs : Map ℕ AccountStateAndTx → List Transaction
all_txs [] = []
all_txs ((from, at) ∷ ats) = at.txs ++ all_txs ats

module _ (shard : ℕ) (modified : Map String ℕ) where
  all_ours-filterb :
      (from : ℕ) (f : String → AccountState) (addrs : List String) (queue : List Transaction)
      → all_ours shard modified (filterb (goes_to from modified f addrs shard) queue) ≡ true
  unfolding all_ours
  all_ours-filterb from f addrs [] = refl
  all_ours-filterb from f addrs (tx ∷ queue) =
      elim (Bool-cases (goes_to from modified f addrs shard tx)) [
        | inl t ↦
            let ours : is_ours shard modified tx ≡ true =
              is_ours-owner shard modified tx ∙ second (has_addr (owner tx) addrs) _ t in
            rw (t, all_ours, ours) (all_ours-filterb from f addrs queue)
        | inr e ↦ rw e (all_ours-filterb from f addrs queue)
      ]
    where
      second : (a b : Bool) → (a && b) ≡ true → b ≡ true
      second a b h = ground arith

  -- A message that another shard makes for this one under the new partition.
  abbrev pub IsSent : ℕ × AccountStateAndTx → Type 0
  IsSent (from, at) =
      (f : String → AccountState) × (addrs : List String) × (queue : List Transaction) × (at
        ≡ sent_to from modified f addrs shard queue)

  collect-IsSent :
      (ats : Map ℕ AccountStateAndTx) (accounts : Map String AccountState) (txs : List Transaction)
      → All IsSent ats
      → all_ours shard modified txs ≡ true
      → (accounts' : Map String AccountState) × (collect ats accounts txs
          ≡ some (accounts', txs ++ all_txs ats))
        × (all_ours shard modified (txs ++ all_txs ats) ≡ true)
  unfolding collect
  collect-IsSent [] accounts txs sent ours = (
    accounts,
    ap (λ l. some (accounts, l)) (sym (append-nil txs)),
    ap (λ l. all_ours shard modified l) (append-nil txs) ∙ ours,
  )
  collect-IsSent ((from, at) ∷ ats) accounts txs ((f, addrs, queue, e), sent) ours =
      let (m, put) =
        subst
          (λ a.
            (m : Map String AccountState) × (put_states a.addrs a.account_state accounts ≡ some m))
          (sym e) (put_states-map f (sent_to from modified f addrs shard queue).addrs accounts) in
      let got : all_ours shard modified at.txs ≡ true =
        subst (λ a. all_ours shard modified a.txs ≡ true) (sym e)
          (all_ours-filterb from f addrs queue) in
      let (accounts', ec, oc) =
        collect-IsSent ats m (txs ++ at.txs) sent
          (all_ours-append shard modified txs at.txs ours got) in
      (
        accounts',
        >>=-some (put_states at.addrs at.account_state accounts) _ put
            ∙ ec
            ∙ ap (λ l. some (accounts', l)) (append_assoc txs at.txs (all_txs ats)),
        ap (λ l. all_ours shard modified l) (sym (append_assoc txs at.txs (all_txs ats))) ∙ oc,
      )

  -- Let a shard have collected only messages that the other shards make for it under a new partition,
  -- and let that partition be the one of the next round. Then it does not panic when it proposes the
  -- partition: the request holds the partition, and its pool gets the messages' transactions, all
  -- of them, in the order in which the messages are joined.
  pub propose_partition-IsSent :
      (now : ℕ) (p : ClpaNode)
      → p.chain.shard_id ≡ shard
      → get_elem? p.cdm.modified_map p.cdm.account_transfer_round ≡ some modified
      → p.cdm.received_new_tx ≡ []
      → All IsSent p.cdm.account_state_tx
      → (atm : AccountTransferMsg) × (p' : ClpaNode) × (propose_partition now p ≡ some (atm, p'))
        × (atm.modified_map ≡ modified)
        × (atm.atid ≡ length p.cdm.modified_map)
        × (p'.chain ≡ send_tx2pool now (all_txs p.cdm.account_state_tx) p.chain)
  unfolding propose_partition
  propose_partition-IsSent now p es em er sent =
      let (accounts, ec, ours) =
        collect-IsSent p.cdm.account_state_tx p.cdm.received_new_account_state [] sent
          (unfold all_ours in refl) in
      (
        record {
          modified_map = modified;
          addrs = map (λ e. e.0) accounts;
          account_state = map (λ e. e.1) accounts;
          atid = length p.cdm.modified_map;
        },
        record p {
          chain = send_tx2pool now (all_txs p.cdm.account_state_tx) p.chain;
          cdm = record (p.cdm) {
            received_new_account_state = accounts;
            received_new_tx = all_txs p.cdm.account_state_tx;
          };
        },
        rw (er, ec, em, es, ours) refl,
        refl,
        refl,
        refl,
      )
