-- ===== src/Chain/Blocks/Generated.antt =====
-- chain/blockchain.go: a block that `GenerateBlock` makes, and the node's own checks of it.
use blbchain.Base.{
  ℕ, ◌+◌, ◌≡◌, refl, sym, ap, ◌∙◌, subst, inl, inr, true, false, List, [], ◌∷◌, Option, none, some,
  Bytes, bytes_eq, ◌==◌, insert, lookup-insert_self, lookup-insert_ne, beq_false, nat_beq,
  nat_beq_iff, is_some, Bool-cases,
}
use blbchain.Core.Transaction.{Transaction}
use blbchain.Core.TxPool.{TxPool}
use blbchain.Core.Block.{Block}
use blbchain.Chain.State.{Accounts, Library, BlockChain, home_of, get_tx_tree_root}
use blbchain.Chain.Exec.{exec_txs}
use blbchain.Chain.Blocks.{
  open_trie, get_update_status_trie, pack, generate_block, has_trie, store, add_block,
  is_valid_block, find_trie,
}
use blbchain.Chain.Blocks.Linked.{
  SameBlocks, SameAfter, IfSome, IfSome-bind, IfSome-if, get_update_status_trie-SameBlocks,
}

module _ (lib : Library) where
  has_trie-insert :
      (st : Accounts) (bc : BlockChain)
      → has_trie lib (lib.root_of st) (record bc { triedb = insert (lib.root_of st) st bc.triedb })
        ≡ true
  unfolding has_trie
  has_trie-insert st bc =
      rw (lookup-insert_self (lib.root_of st) st bc.triedb, find_trie)
        (elim (Bool-cases (lib.is_empty_root (lib.root_of st))) [ inl t ↦ rw t | inr f ↦ rw f ])

  -- What `GetUpdateStatusTrie` gives for a block: a root whose trie is in the database.
  abbrev HasRoot : Bytes × BlockChain → Type 0
  HasRoot r = has_trie lib r.0 r.1 ≡ true

  get_update_status_trie-HasRoot :
      (txs : List Transaction) (bc : BlockChain)
      → has_trie lib bc.current_block.header.state_root bc ≡ true
      → IfSome HasRoot (get_update_status_trie lib txs bc)
  unfolding get_update_status_trie
  get_update_status_trie-HasRoot [] bc known = known
  get_update_status_trie-HasRoot (tx ∷ txs) bc known =
      IfSome-bind HasRoot (open_trie lib bc) _ (λ st e.
        let r = exec_txs (home_of lib bc) bc.shard_id bc.init_balance 0 (tx ∷ txs) st in
        IfSome-if HasRoot (nat_beq r.1 0) (some (bc.current_block.header.state_root, bc))
          (some (lib.root_of r.0, record bc { triedb = insert (lib.root_of r.0) r.0 bc.triedb }))
          (λ _. known) (λ _. has_trie-insert r.0 bc))

  -- A block fits on a chain: it is valid for it, and adding it puts it on top.
  abbrev pub Fits : BlockChain → Block × BlockChain → Type 0
  Fits bc (b, bc') =
      (is_valid_block lib b bc' ≡ true)
      × (add_block lib b bc' ≡ some (store b bc'))
      × (bc'.storage ≡ bc.storage)

  SameBlocks-Fits :
      (b : Block) (bc bc' : BlockChain)
      → SameBlocks bc bc'
      → b.header.number ≡ bc.current_block.header.number + 1
      → b.header.parent_block_hash ≡ bc.current_block.hash
      → b.header.tx_root ≡ get_tx_tree_root lib b.body
      → has_trie lib b.header.state_root bc' ≡ true
      → Fits bc (b, bc')
  unfolding is_valid_block add_block
  SameBlocks-Fits b bc bc' (same, kept) number parent root known =
      (rw hash ((bytes_eq.equals_iff _ _).1 (sym root)), rw (height, hash, known) refl, kept)
    where
      height : nat_beq b.header.number (bc'.current_block.header.number + 1) ≡ true
      height = (nat_beq_iff _ _).1 (number ∙ ap (λ (c : Block). c.header.number + 1) (sym same))

      hash : (b.header.parent_block_hash == bc'.current_block.hash) ≡ true
      hash = (bytes_eq.equals_iff _ _).1 (parent ∙ ap (λ (c : Block). c.hash) (sym same))

  -- A block that the chain generates is valid for the chain that it leaves, and adding it there puts
  -- it on top of the stored blocks; the blocks themselves are not changed by generating it.
  pub generate_block-Fits :
      (size : Option (ℕ × ℕ)) (now miner : ℕ) (bc bc' : BlockChain) (b : Block)
      → has_trie lib bc.current_block.header.state_root bc ≡ true
      → generate_block lib size now miner bc ≡ some (b, bc')
      → (is_valid_block lib b bc' ≡ true)
        × (add_block lib b bc' ≡ some (store b bc'))
        × (bc'.storage ≡ bc.storage)
  unfolding generate_block has_trie
  generate_block-Fits size now miner bc bc' b known h = subst (IfSome (Fits bc)) h (
      IfSome-bind (Fits bc) (get_update_status_trie lib packed.0 packing) _ (λ r e.
        SameBlocks-Fits _ bc r.1
          (subst (IfSome (SameAfter bc)) e (get_update_status_trie-SameBlocks lib packed.0 packing))
          refl refl refl
          (subst (IfSome HasRoot) e (get_update_status_trie-HasRoot packed.0 packing known))))
    where
      packed : List Transaction × TxPool
      packed = pack size bc

      packing : BlockChain
      packing = record bc { tx_pool = packed.1 }

  -- Executing transactions stores one trie at most, under the root that it gives.
  get_update_status_trie-has_trie :
      (root : Bytes) (txs : List Transaction) (bc : BlockChain)
      → has_trie lib root bc ≡ false
      → IfSome
          (λ r. ¬ (r.0 ≡ root) → has_trie lib root r.1 ≡ false)
          (get_update_status_trie lib txs bc)
  unfolding get_update_status_trie
  get_update_status_trie-has_trie root [] bc h = λ _. h
  get_update_status_trie-has_trie root (tx ∷ txs) bc h = IfSome-bind _ (open_trie lib bc) _ (λ st e.
      let r = exec_txs (home_of lib bc) bc.shard_id bc.init_balance 0 (tx ∷ txs) st in
      IfSome-if _ (nat_beq r.1 0) (some (bc.current_block.header.state_root, bc))
        (some (lib.root_of r.0, record bc { triedb = insert (lib.root_of r.0) r.0 bc.triedb }))
        (λ _ _. h)
        (λ _ other.
          unfold has_trie in
          (rw
            (
              lookup-insert_ne (lib.root_of r.0) root r.0 bc.triedb
                  (beq_false (lib.root_of r.0) root other),
              find_trie,
            )
            h)))

  -- `AddBlock` compares no state root with the one that the block's header claims: a block at the
  -- right height and parent is added also where executing it gives another root, and then the state
  -- of the block on top cannot be opened.
  pub add_block-open_trie-none :
      (b : Block) (bc : BlockChain) (rt : Bytes) (bc' : BlockChain)
      → b.header.number ≡ bc.current_block.header.number + 1
      → b.header.parent_block_hash ≡ bc.current_block.hash
      → has_trie lib b.header.state_root bc ≡ false
      → get_update_status_trie lib b.body bc ≡ some (rt, bc')
      → ¬ (rt ≡ b.header.state_root)
      → (add_block lib b bc ≡ some (store b bc')) × (open_trie lib (store b bc') ≡ none)
  unfolding add_block open_trie has_trie
  add_block-open_trie-none b bc rt bc' number parent unknown gave wrong = (
    rw (
      (nat_beq_iff _ _).1 number,
      (bytes_eq.equals_iff b.header.parent_block_hash bc.current_block.hash).1 parent,
      unknown,
      gave,
    ),
    no_trie _ (
        subst
          (IfSome
            (λ r. ¬ (r.0 ≡ b.header.state_root) → has_trie lib b.header.state_root r.1 ≡ false))
          gave (get_update_status_trie-has_trie b.header.state_root b.body bc unknown) wrong),
  )
    where
      no_trie : (o : Option Accounts) → is_some o ≡ false → o ≡ none
      no_trie none e = refl
      no_trie (some st) e = cc
