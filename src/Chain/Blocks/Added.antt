-- ===== src/Chain/Blocks/Added.antt =====
-- chain/blockchain.go: the accounts after `AddAccounts`.
use blbchain.Base.{
  HasKeysOnce, String, string_eq, ◌+◌, ◌≡◌, refl, sym, ap, ◌∙◌, subst, inl, inr, Bool, true, false,
  ◌==◌, nat_eq, bytes_eq, Bytes, nat_beq, Option, none, some, List, [], ◌∷◌, map, Map, lookup,
  insert, lookup-insert_self, lookup-insert_ne, if◌then◌else◌, Bool-cases,
}
use blbchain.Core.Block.{AccountState, Block, BlockHeader}
use blbchain.Chain.State.{
  Library, BlockChain, Accounts, home_of, get_tx_tree_root, get_bloom_filter,
}
use blbchain.Chain.Blocks.{find_trie, open_trie, put_accounts, updated_trie, add_accounts, store}

abbrev pub first_of : Option AccountState → Option AccountState → Option AccountState
first_of none o = o
first_of (some s) o = some s

same_branches : (b : Bool) (o : Option AccountState) → o ≡ (if b then o else o)
same_branches true o = refl
same_branches false o = refl

module _ (lib : Library) where
  abbrev pub lives_here : BlockChain → String → Bool
  lives_here bc a = nat_beq (home_of lib bc a) bc.shard_id

  -- The state that an account has after the accounts that live here are written.
  abbrev pub state_after :
      BlockChain → Map String AccountState → Accounts → String → Option AccountState
  state_after bc accounts st a =
      if lives_here bc a then first_of (lookup a accounts) (lookup a st) else lookup a st

  abbrev written : BlockChain → String → AccountState → Accounts → Accounts
  written bc key s st = if lives_here bc key then insert key s st else st

  written_other :
      (bc : BlockChain) (key : String) (s : AccountState) (st : Accounts) (a : String)
      → (key == a) ≡ false
      → lookup a (written bc key s st) ≡ lookup a st
  written_other bc key s st a f = elim (Bool-cases (lives_here bc key)) [
    | inl y ↦ rw y (lookup-insert_ne key a s st f)
    | inr n ↦ rw n refl
  ]

  written_self :
      (bc : BlockChain) (accounts : Map String AccountState) (s : AccountState) (st : Accounts)
      (a : String)
      → lookup a accounts ≡ none
      → state_after bc accounts (written bc a s st) a
        ≡ (if lives_here bc a then some s else lookup a st)
  written_self bc accounts s st a new = elim (Bool-cases (lives_here bc a)) [
    | inl y ↦ rw (y, new, lookup-insert_self a s st) refl
    | inr n ↦ rw n refl
  ]

  pub put_accounts-lookup :
      (bc : BlockChain) (accounts : Map String AccountState) (st : Accounts)
      → HasKeysOnce accounts
      → (st' : Accounts) × (put_accounts lib bc
            (map (λ e. e.0) accounts)
            (map (λ e. e.1) accounts)
            st
          ≡ some st')
        × ((a : String) → lookup a st' ≡ state_after bc accounts st a)
  unfolding put_accounts lookup
  put_accounts-lookup bc [] st once = (st, refl, λ a. same_branches (lives_here bc a) (lookup a st))
  put_accounts-lookup bc ((key, s) ∷ accounts) st (new, once) =
      let (st', e, look) = put_accounts-lookup bc accounts (written bc key s st) once in
      (
        st',
        e,
        λ a. look a ∙ elim (Bool-cases (key == a)) [
          | inl t ↦
              let same : key ≡ a = (string_eq.equals_iff key a).0 t in
              ap (λ k. state_after bc accounts (written bc k s st) a) same
              ∙ written_self bc accounts s st a (subst (λ k. lookup k accounts ≡ none) same new)
              ∙ rw t refl
          | inr f ↦ rw (written_other bc key s st a f, f) refl
        ],
      )

  -- Only the empty trie has a root that `trie.New` takes for the empty one.
  abbrev pub EmptyRoots : Type 0
  EmptyRoots = (st : Accounts) → lib.is_empty_root (lib.root_of st) ≡ true → st ≡ []

  -- The block without transactions that `AddAccounts` puts on top.
  abbrev pub account_block : Bytes → BlockChain → Block
  account_block rt bc =
      let bh : BlockHeader = record {
        parent_block_hash = bc.current_block.hash;
        state_root = rt;
        tx_root = get_tx_tree_root lib [];
        bloom = get_bloom_filter [];
        number = bc.current_block.header.number + 1;
        time = 0;
        miner = 0;
      } in
      record { header = bh; body = []; hash = lib.hash_header bh }

  pub add_accounts-store :
      (addrs : List String) (states : List AccountState) (bc : BlockChain) (rt : Bytes)
      (db : Map Bytes Accounts)
      → updated_trie lib addrs states bc ≡ some (rt, record bc { triedb = db })
      → add_accounts lib addrs states bc
        ≡ some (store (account_block rt bc) (record bc { triedb = db }))
  unfolding add_accounts
  add_accounts-store addrs states bc rt db e = rw e refl

  find_trie-insert :
      EmptyRoots
      → (st : Accounts) (bc : BlockChain)
      → find_trie lib (lib.root_of st) (record bc { triedb = insert (lib.root_of st) st bc.triedb })
        ≡ some st
  unfolding find_trie
  find_trie-insert empty st bc = elim (Bool-cases (lib.is_empty_root (lib.root_of st))) [
    | inl t ↦ rw t (ap some (sym (empty st t)))
    | inr f ↦ rw f (lookup-insert_self (lib.root_of st) st bc.triedb)
  ]

  pub updated_trie-lookup :
      (accounts : Map String AccountState) (bc : BlockChain) (st : Accounts)
      → EmptyRoots
      → HasKeysOnce accounts
      → open_trie lib bc ≡ some st
      → (rt : Bytes) × (db : Map Bytes Accounts) × (st' : Accounts) × (updated_trie lib
            (map (λ e. e.0) accounts)
            (map (λ e. e.1) accounts)
            bc
          ≡ some (rt, record bc { triedb = db }))
        × (find_trie lib rt (record bc { triedb = db }) ≡ some st')
        × ((a : String) → lookup a st' ≡ state_after bc accounts st a)
  unfolding updated_trie open_trie
  updated_trie-lookup [] bc st empty once et =
      let (st', ep, look) = put_accounts-lookup bc [] st once in
      (
        bc.current_block.header.state_root,
        bc.triedb,
        st,
        refl,
        et,
        λ a. same_branches (lives_here bc a) (lookup a st),
      )
  updated_trie-lookup ((key, s) ∷ accounts) bc st empty once et =
      let (st', ep, look) = put_accounts-lookup bc ((key, s) ∷ accounts) st once in
      (
        lib.root_of st',
        insert (lib.root_of st') st' bc.triedb,
        st',
        rw (et, ep) refl,
        find_trie-insert empty st' bc,
        look,
      )

  pub same_trie :
      (rt : Bytes) (bc : BlockChain) (db : Map Bytes Accounts)
      → open_trie lib (store (account_block rt bc) (record bc { triedb = db }))
        ≡ find_trie lib rt (record bc { triedb = db })
  unfolding open_trie find_trie
  same_trie rt bc db = refl

  pub same_home :
      (b : Block) (bc : BlockChain) (db : Map Bytes Accounts) (a : String)
      → home_of lib (store b (record bc { triedb = db })) a ≡ home_of lib bc a
  unfolding home_of
  same_home b bc db a = refl
