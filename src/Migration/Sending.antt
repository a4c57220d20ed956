-- ===== src/Migration/Sending.antt =====
-- What `sendAccounts_and_Txs` sends to each shard, and what it leaves in the pool.
use blbchain.Base.{
  filterb-filterb, filterb_ext, filterb_all, String, string_eq, ℕ, zero, suc, ◌+◌, ◌<◌, ◌≡◌, refl,
  sym, ap, ap₂, ◌∙◌, inl, inr, Bool, true, false, not, ◌&&◌, ◌||◌, ◌==◌, nat_eq, ltb, leb, nat_beq,
  some, List, [], ◌∷◌, All, map, Map, filterb, if◌then◌else◌, Bool-cases, arith,
}
use blbchain.Core.Transaction.{Transaction}
use blbchain.Core.Block.{AccountState}
use blbchain.Chain.State.{
  Library, Accounts, BlockChain, home_of, has_home, get_partition_map-home_of,
}
use blbchain.Chain.Blocks.{fetch_account, fetch_accounts, open_trie}
use blbchain.Migration.{
  AccountStateAndTx, ClpaNode, new_shard, last_map, has_addr, goes_with, fetch_txs, select_accounts,
  accounts_to_fetch, send_loop, send_accounts_and_txs,
}
use blbchain.Migration.Pool.{fetch_txs-filterb}

-- The account that a transaction waits for: its sender, or its recipient the second time.
abbrev pub owner : Transaction → String
owner tx = if tx.relayed then tx.recipient else tx.sender

goes_with-owner :
    (addrs : List String) (tx : Transaction) → goes_with addrs tx ≡ has_addr (owner tx) addrs
unfolding goes_with
goes_with-owner addrs tx = elim (Bool-cases tx.relayed) [
  | inl t ↦ rw t (at_second (has_addr tx.sender addrs) (has_addr tx.recipient addrs))
  | inr f ↦ rw f (at_first (has_addr tx.sender addrs) (has_addr tx.recipient addrs))
]
  where
    at_second : (s r : Bool) → ((s && false) || (r && true)) ≡ r
    at_second s r = ground arith

    at_first : (s r : Bool) → ((s && true) || (r && false)) ≡ s
    at_first s r = ground arith

has_addr-filterb :
    (p : String → Bool) (addr : String) (addrs : List String)
    → has_addr addr (filterb p addrs) ≡ (has_addr addr addrs && p addr)
unfolding has_addr
has_addr-filterb p addr [] = refl
has_addr-filterb p addr (a ∷ addrs) = elim (Bool-cases (a == addr)) [
  | inl t ↦
      let same : a ≡ addr = (string_eq.equals_iff a addr).0 t in
      elim (Bool-cases (p addr)) [
        | inl y ↦ rw (ap p same ∙ y, has_addr, t, y) refl
        | inr n ↦
            rw (ap p same ∙ n, has_addr-filterb p addr addrs, n, t) (no_and (has_addr addr addrs))
      ]
  | inr f ↦ elim (Bool-cases (p a)) [
    | inl y ↦ rw (y, has_addr, f) (has_addr-filterb p addr addrs)
    | inr n ↦ rw (n, f) (has_addr-filterb p addr addrs)
  ]
]
  where
    no_and : (h : Bool) → (h && false) ≡ false
    no_and h = ground arith

abbrev with_state : (String → AccountState) → String → String × AccountState
with_state f a = (a, f a)

addrs_of_pairs :
    (f : String → AccountState) (xs : List String) → map (λ e. e.0) (map (with_state f) xs) ≡ xs
addrs_of_pairs f [] = refl
addrs_of_pairs f (x ∷ xs) = ap (◌∷◌ x) (addrs_of_pairs f xs)

states_of_pairs :
    (f : String → AccountState) (xs : List String)
    → map (λ e. e.1) (map (with_state f) xs) ≡ map f xs
states_of_pairs f [] = refl
states_of_pairs f (x ∷ xs) = ap (◌∷◌ (f x)) (states_of_pairs f xs)

module _ (modified : Map String ℕ) (f : String → AccountState) where
  select_accounts-map :
      (i : ℕ) (addrs : List String)
      → select_accounts modified i addrs (map f addrs)
        ≡ some (map (with_state f) (filterb (λ a. nat_beq (new_shard modified a) i) addrs))
  unfolding select_accounts
  select_accounts-map i [] = refl
  select_accounts-map i (a ∷ addrs) = elim (Bool-cases (nat_beq (new_shard modified a) i)) [
    | inl t ↦ rw (t, select_accounts-map i addrs) refl
    | inr e ↦ rw (e, select_accounts-map i addrs) refl
  ]

module _ (shard : ℕ) (modified : Map String ℕ) (f : String → AccountState)
    (addrs : List String) where
  -- The shard where the transaction's owner is to live.
  abbrev pub goal_of : Transaction → ℕ
  goal_of tx = new_shard modified (owner tx)

  abbrev pub goes_to : ℕ → Transaction → Bool
  goes_to i tx = has_addr (owner tx) addrs && nat_beq (goal_of tx) i

  -- Does it go to one of the shards from `sid` on, `n` of them?
  abbrev pub leaves : ℕ → ℕ → Transaction → Bool
  leaves sid n tx =
      has_addr (owner tx) addrs
      && (leb sid (goal_of tx) && (ltb (goal_of tx) (sid + n) && not (nat_beq (goal_of tx) shard)))

  abbrev pub addrs_to : ℕ → List String
  addrs_to i = filterb (λ a. nat_beq (new_shard modified a) i) addrs

  abbrev pub sent_to : ℕ → List Transaction → AccountStateAndTx
  sent_to i queue = record {
    addrs = addrs_to i;
    account_state = map f (addrs_to i);
    txs = filterb (goes_to i) queue;
    from_shard = shard;
  }

  fetch_txs-goes_to :
      (i : ℕ) (queue : List Transaction)
      → fetch_txs (addrs_to i) queue
        ≡ (filterb (λ tx. not (goes_to i tx)) queue, filterb (goes_to i) queue)
  fetch_txs-goes_to i queue =
      let same : (tx : Transaction) → goes_with (addrs_to i) tx ≡ goes_to i tx = λ tx.
        goes_with-owner (addrs_to i) tx
        ∙ has_addr-filterb (λ a. nat_beq (new_shard modified a) i) (owner tx) addrs in
      fetch_txs-filterb (addrs_to i) queue
      ∙ ap₂ (λ x y. (x, y)) (filterb_ext _ _ (λ tx. ap not (same tx)) queue)
          (filterb_ext _ _ same queue)

  -- One message for each other shard, from `sid` on, `n` of them.
  abbrev pub msgs_of : ℕ → ℕ → List Transaction → List (ℕ × AccountStateAndTx)
  msgs_of sid zero queue = []
  msgs_of sid (suc n) queue =
      let rest = msgs_of (sid + 1) n queue in
      if nat_beq sid shard then rest else (sid, sent_to sid queue) ∷ rest

  others-goes_to :
      (i j : ℕ) → j < i → (tx : Transaction) → goes_to i tx ≡ (not (goes_to j tx) && goes_to i tx)
  others-goes_to i j h tx = ground arith

  msgs_of-rest :
      (j sid n : ℕ) (queue : List Transaction)
      → j < sid
      → msgs_of sid n (filterb (λ tx. not (goes_to j tx)) queue) ≡ msgs_of sid n queue
  msgs_of-rest j sid zero queue h = refl
  msgs_of-rest j sid (suc n) queue h =
      rw
        (
          msgs_of-rest j (sid + 1) n queue (omega arith),
          filterb-filterb (goes_to sid) (λ tx. not (goes_to j tx)) (goes_to sid)
              (others-goes_to sid j h) queue,
        )
        refl

  leaves-none : (sid : ℕ) (tx : Transaction) → not (leaves sid 0 tx) ≡ true
  leaves-none sid tx = ground arith

  leaves-own :
      (sid n : ℕ)
      → nat_beq sid shard ≡ true
      → (tx : Transaction) → not (leaves (sid + 1) n tx) ≡ not (leaves sid (suc n) tx)
  leaves-own sid n h tx = ground arith

  leaves-other :
      (sid n : ℕ)
      → nat_beq sid shard ≡ false
      → (tx : Transaction)
      → not (leaves sid (suc n) tx) ≡ (not (goes_to sid tx) && not (leaves (sid + 1) n tx))
  leaves-other sid n h tx = ground arith

  send_loop_lem :
      (sid n : ℕ) (queue : List Transaction)
      → send_loop shard modified addrs (map f addrs) sid n queue
        ≡ some (msgs_of sid n queue, filterb (λ tx. not (leaves sid n tx)) queue)
  unfolding send_loop
  send_loop_lem sid zero queue =
      ap (λ l. some ([], l)) (sym (filterb_all _ (leaves-none sid) queue))
  send_loop_lem sid (suc n) queue = elim (Bool-cases (nat_beq sid shard)) [
    | inl t ↦
        rw (t, send_loop)
          (send_loop_lem (sid + 1) n queue
            ∙ ap (λ l. some (msgs_of (sid + 1) n queue, l))
                (filterb_ext _ _ (leaves-own sid n t) queue))
    | inr e ↦
        rw
          (
            e,
            send_loop,
            select_accounts-map modified f sid addrs,
            addrs_of_pairs f (addrs_to sid),
            states_of_pairs f (addrs_to sid),
            fetch_txs-goes_to sid queue,
            send_loop_lem (sid + 1) n (filterb (λ tx. not (goes_to sid tx)) queue),
            msgs_of-rest sid (sid + 1) n queue (omega arith),
            filterb-filterb (λ tx. not (leaves (sid + 1) n tx)) (λ tx. not (goes_to sid tx))
                (λ tx. not (leaves sid (suc n) tx)) (leaves-other sid n e) queue,
          )
          refl
  ]

-- The accounts that the partition names which are in this shard and which it gives to another one.
abbrev pub leaving : Library → BlockChain → Map String ℕ → List String
leaving lib bc modified =
    map (λ e. e.0)
      (filterb (λ e. not (nat_beq e.1 bc.shard_id) && nat_beq (home_of lib bc e.0) bc.shard_id)
        modified)

accounts_to_fetch-leaving :
    (lib : Library) (bc : BlockChain) (modified : Map String ℕ)
    → All (λ e. has_home lib bc e.0 ≡ true) modified
    → accounts_to_fetch lib bc modified ≡ some (leaving lib bc modified)
unfolding accounts_to_fetch
accounts_to_fetch-leaving lib bc [] homes = refl
accounts_to_fetch-leaving lib bc ((key, val) ∷ m) (known, homes) =
    let rest = accounts_to_fetch-leaving lib bc m homes in
    elim (Bool-cases (nat_beq val bc.shard_id)) [
      | inl stays ↦ rw (stays, rest) refl
      | inr other ↦ elim (Bool-cases (nat_beq (home_of lib bc key) bc.shard_id)) [
        | inl here ↦ rw (other, get_partition_map-home_of lib bc key known, rest, here) refl
        | inr there ↦ rw (other, get_partition_map-home_of lib bc key known, rest, there) refl
      ]
    ]

module _ (lib : Library) (p : ClpaNode) (st : Accounts) (modified : Map String ℕ) where
  -- With a new partition, for whose accounts the program finds a shard, and a trie for the current root,
  -- sending does not panic. Each other shard gets one message, with those accounts that live in this shard
  -- and that the partition gives to that one, their states, and the transactions of the pool whose owner
  -- is one of them, in the pool's order; the pool keeps exactly the transactions that no shard gets, in
  -- its order, and nothing else changes.
  pub send_accounts_and_txs-msgs_of :
      All (λ e. has_home lib p.chain e.0 ≡ true) modified
      → last_map p.cdm.modified_map ≡ some modified
      → open_trie lib p.chain ≡ some st
      → send_accounts_and_txs lib p
        ≡ some (
          msgs_of p.chain.shard_id modified
              (fetch_account p.chain st)
              (leaving lib p.chain modified)
              0
              p.chain.shard_num
              p.chain.tx_pool.tx_queue,
          record p {
            chain = record (p.chain) {
              tx_pool = record (p.chain.tx_pool) {
                tx_queue =
                    filterb
                      (λ tx. not (
                        leaves p.chain.shard_id modified
                          (fetch_account p.chain st)
                          (leaving lib p.chain modified)
                          0
                          p.chain.shard_num
                          tx))
                      p.chain.tx_pool.tx_queue;
              };
            };
          },
        )
  unfolding send_accounts_and_txs fetch_accounts
  send_accounts_and_txs-msgs_of homes em et =
      rw
        (
          em,
          accounts_to_fetch-leaving lib p.chain modified homes,
          et,
          send_loop_lem p.chain.shard_id modified (fetch_account p.chain st)
              (leaving lib p.chain modified) 0 p.chain.shard_num p.chain.tx_pool.tx_queue,
        )
        refl
