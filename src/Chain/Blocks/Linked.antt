-- ===== src/Chain/Blocks/Linked.antt =====
-- chain/blockchain.go: the links between the blocks that `AddBlock` and `AddAccounts` store.
use blbchain.Base.{
  ◌>>=◌, ◌+◌, ◌≡◌, refl, ap, ◌∙◌, subst, Bool, true, false, not, List, [], ◌∷◌, Option, none, some,
  String, Bytes, bytes_eq, ◌==◌, insert, nat_beq, nat_beq_iff, if◌then◌else◌,
}
use blbchain.Core.Transaction.{Transaction}
use blbchain.Core.Block.{Block, AccountState}
use blbchain.Chain.State.{Library, BlockChain, home_of}
use blbchain.Chain.Exec.{exec_txs}
use blbchain.Chain.Blocks.{
  open_trie, get_update_status_trie, has_trie, store, add_block, updated_trie, put_accounts,
  add_accounts,
}

-- Every block stands on the next one of the list: one height above, and with its hash.
abbrev pub Linked : Block → List Block → Type 0
Linked b [] = Unit
Linked b (c ∷ cs) =
    (b.header.number ≡ c.header.number + 1) × (b.header.parent_block_hash ≡ c.hash) × Linked c cs

pub record IsChain (bc : BlockChain) : Type 0 where
  pub below : List Block
  pub stored : bc.storage ≡ bc.current_block ∷ below
  pub linked : Linked bc.current_block below

-- The two chains have the same blocks.
abbrev pub SameBlocks : BlockChain → BlockChain → Type 0
SameBlocks bc bc' = (bc'.current_block ≡ bc.current_block) × (bc'.storage ≡ bc.storage)

abbrev pub SameAfter : BlockChain → Bytes × BlockChain → Type 0
SameAfter bc r = SameBlocks bc r.1

-- What holds of a result if there is one.
abbrev pub IfSome : {A : Type 0} → (A → Type 0) → Option A → Type 0
IfSome P none = Unit
IfSome P (some a) = P a

pub IfSome-bind :
    {A B : Type 0} (P : B → Type 0) (m : Option A) (k : A → Option B)
    → ((a : A) → m ≡ some a → IfSome P (k a))
    → IfSome P (m >>= k)
IfSome-bind P none k h = tt
IfSome-bind P (some a) k h = h a refl

pub IfSome-if :
    {A : Type 0} (P : A → Type 0) (b : Bool) (x y : Option A)
    → (b ≡ true → IfSome P x)
    → (b ≡ false → IfSome P y)
    → IfSome P (if b then x else y)
IfSome-if P true x y h k = h refl
IfSome-if P false x y h k = k refl

IsChain-store :
    (b : Block) (bc bc' : BlockChain)
    → IsChain bc
    → SameBlocks bc bc'
    → b.header.number ≡ bc.current_block.header.number + 1
    → b.header.parent_block_hash ≡ bc.current_block.hash
    → IsChain (store b bc')
IsChain-store b bc bc' v (same, kept) number parent = record {
  below = bc.current_block ∷ v.below;
  stored = ap (◌∷◌ b) (kept ∙ v.stored);
  linked = (number, parent, v.linked);
}

module _ (lib : Library) where
  pub get_update_status_trie-SameBlocks :
      (txs : List Transaction) (bc : BlockChain)
      → IfSome (SameAfter bc) (get_update_status_trie lib txs bc)
  unfolding get_update_status_trie
  get_update_status_trie-SameBlocks [] bc = (refl, refl)
  get_update_status_trie-SameBlocks (tx ∷ txs) bc =
      IfSome-bind (SameAfter bc) (open_trie lib bc) _ (λ st e.
        let r = exec_txs (home_of lib bc) bc.shard_id bc.init_balance 0 (tx ∷ txs) st in
        IfSome-if (SameAfter bc) (nat_beq r.1 0) (some (bc.current_block.header.state_root, bc))
          (some (lib.root_of r.0, record bc { triedb = insert (lib.root_of r.0) r.0 bc.triedb }))
          (λ _. (refl, refl)) (λ _. (refl, refl)))

  updated_trie-SameBlocks :
      (addrs : List String) (states : List AccountState) (bc : BlockChain)
      → IfSome (SameAfter bc) (updated_trie lib addrs states bc)
  unfolding updated_trie
  updated_trie-SameBlocks [] states bc = (refl, refl)
  updated_trie-SameBlocks (addr ∷ addrs) states bc =
      IfSome-bind (SameAfter bc) (open_trie lib bc) _ (λ st e.
        IfSome-bind (SameAfter bc) (put_accounts lib bc (addr ∷ addrs) states st) _
          (λ st' e'. (refl, refl)))

  -- A block that does not fit is not added, and one that is added stands on the current block, so
  -- the stored blocks stay a chain with the current block on top.
  pub add_block-IsChain :
      (b : Block) (bc bc' : BlockChain) → IsChain bc → add_block lib b bc ≡ some bc' → IsChain bc'
  unfolding add_block
  add_block-IsChain b bc bc' v h = subst (IfSome IsChain) h (
      IfSome-if IsChain (not (nat_beq b.header.number (bc.current_block.header.number + 1))) _ _
        (λ _. v)
        (λ number.
          IfSome-if IsChain (not (b.header.parent_block_hash == bc.current_block.hash)) _ _ (λ _. v)
            (λ parent. fits (not_false _ number) (not_false _ parent))))
    where
      not_false : (c : Bool) → not c ≡ false → c ≡ true
      not_false true e = refl
      not_false false e = cc

      fits :
          nat_beq b.header.number (bc.current_block.header.number + 1) ≡ true
          → (b.header.parent_block_hash == bc.current_block.hash) ≡ true
          → IfSome IsChain (
              if has_trie lib b.header.state_root bc
              then some (store b bc)
              else get_update_status_trie lib b.body bc >>= λ r. some (store b r.1))
      fits number parent =
          IfSome-if IsChain (has_trie lib b.header.state_root bc) _ _ (λ _. on_top bc (refl, refl))
            (λ _. IfSome-bind IsChain (get_update_status_trie lib b.body bc) _ (λ r e.
              on_top r.1
                (subst (IfSome (SameAfter bc)) e (get_update_status_trie-SameBlocks b.body bc))))
        where
          on_top : (bc' : BlockChain) → SameBlocks bc bc' → IsChain (store b bc')
          on_top bc' same =
              IsChain-store b bc bc' v same ((nat_beq_iff _ _).0 number)
                ((bytes_eq.equals_iff _ _).0 parent)

  -- Adding accounts puts a block with an empty body on the current one, so the stored blocks stay a
  -- chain.
  pub add_accounts-IsChain :
      (addrs : List String) (states : List AccountState) (bc bc' : BlockChain)
      → IsChain bc
      → add_accounts lib addrs states bc ≡ some bc'
      → IsChain bc'
  unfolding add_accounts
  add_accounts-IsChain addrs states bc bc' v h = subst (IfSome IsChain) h (
      IfSome-bind IsChain (updated_trie lib addrs states bc) _ (λ r e.
        IsChain-store _ bc r.1 v
          (subst (IfSome (SameAfter bc)) e (updated_trie-SameBlocks addrs states bc)) refl refl))
