-- ===== src/ExClique/Node/Blocks.antt =====
-- Adding a block that `createBlock` has made.
use blbchain.Base.{
  subst, ℕ, zero, suc, ◌+◌, ◌<◌, ◌≡◌, refl, sym, ap, ◌∙◌, inl, inr, Bool, true, false, some,
  >>=-some, List, [], ◌∷◌, ◌++◌, Bytes, bytes_eq, nat_beq, nat_beq_iff, ltb, if◌then◌else◌,
  Bool-cases, length, take, drop, length-take, append-nil, min, beq_refl, arith,
}
use blbchain.Core.Transaction.{Transaction}
use blbchain.Core.Block.{Block}
use blbchain.Chain.State.{Library, BlockChain}
use blbchain.Chain.Blocks as Chain
use blbchain.Chain.Blocks.{store, find_trie, open_trie, has_trie}
use blbchain.ExClique.Order.{record_block}
use blbchain.ExClique.Delay.{record_broadcast_time, record_verify_time}
use blbchain.ExClique.Node.{
  milliseconds, ExCliqueNode, verify_block, note_known, add_block, create_block, propose_block,
}

module _ (sum64 : Bytes → ℕ) where
  -- Noting transactions as known touches the filter and the table only.
  pub note_known-cur_chain :
      (txs : List Transaction) (ec : ExCliqueNode)
      → ((note_known sum64 txs ec).cur_chain ≡ ec.cur_chain)
        × ((note_known sum64 txs ec).tx_pool ≡ ec.tx_pool)
        × ((note_known sum64 txs ec).block_count ≡ ec.block_count)
        × ((note_known sum64 txs ec).fork_count ≡ ec.fork_count)
  unfolding note_known
  note_known-cur_chain [] ec = (refl, refl, refl, refl)
  note_known-cur_chain (tx ∷ txs) ec = note_known-cur_chain txs _

-- The transactions that a block takes from the pool.
abbrev limited : ℕ → List Transaction → List Transaction
limited max_size pool = if ltb max_size (length pool) then take max_size pool else pool

drop-length : {A : Type 0} (xs : List A) → drop (length xs) xs ≡ []
drop-length [] = refl
drop-length (x ∷ xs) = drop-length xs

take-append : {A : Type 0} (n : ℕ) (xs : List A) → take n xs ++ drop (length (take n xs)) xs ≡ xs
take-append zero xs = refl
take-append (suc n) [] = refl
take-append (suc n) (x ∷ xs) = ap (◌∷◌ x) (take-append n xs)

limited-append :
    (max_size : ℕ) (pool : List Transaction)
    → limited max_size pool ++ drop (length (limited max_size pool)) pool ≡ pool
limited-append max_size pool = elim (Bool-cases (ltb max_size (length pool))) [
  | inl t ↦ rw t (take-append max_size pool)
  | inr f ↦ rw (f, drop-length pool) (append-nil pool)
]

length-limited :
    (max_size : ℕ) (pool : List Transaction)
    → length (limited max_size pool) ≡ min max_size (length pool)
length-limited max_size pool = ground (arith, length-take max_size pool)

module _ (sum64 : Bytes → ℕ) (lib : Library) where
  -- A block whose root opens is put on the chain as it is.
  stored :
      (b : Block) (ec : ExCliqueNode)
      → verify_block b ec ≡ true
      → has_trie lib b.header.state_root ec.cur_chain ≡ true
      → Chain.add_block lib b ec.cur_chain ≡ some (store b ec.cur_chain)
  unfolding verify_block Chain.add_block
  stored b ec fits known = ground (arith, fits, known)

  pub add_block-store :
      (took : ℕ) (b : Block) (ec : ExCliqueNode)
      → verify_block b ec ≡ true
      → has_trie lib b.header.state_root ec.cur_chain ≡ true
      → (ec' : ExCliqueNode) × (add_block sum64 lib took b ec ≡ some ec')
        × (ec'.cur_chain ≡ store b ec.cur_chain)
        × (ec'.tx_pool ≡ ec.tx_pool)
        × (ec'.block_count ≡ ec.block_count)
        × (ec'.fork_count ≡ ec.fork_count)
  unfolding add_block
  add_block-store took b ec fits known =
      let ready = record ec {
        cur_chain = store b ec.cur_chain;
        verify_time = milliseconds took;
        delay_manager = record_verify_time took ec.delay_manager;
      } in
      let (chain, pool, blocks, forks) = note_known-cur_chain sum64 b.body ready in
      (
        note_known sum64 b.body ready,
        rw fits (>>=-some (Chain.add_block lib b ec.cur_chain) _ (stored b ec fits known)),
        chain,
        pool,
        blocks,
        forks,
      )

  opens_empty :
      (b : Block) (chain : BlockChain)
      → b.header.state_root ≡ []
      → lib.is_empty_root [] ≡ true
      → open_trie lib (store b chain) ≡ some []
  unfolding open_trie
  opens_empty b chain e empty = rw (e, empty, find_trie) refl

  create_block-verify_block :
      (now : ℕ) (txs : List Transaction) (ec : ExCliqueNode)
      → verify_block (create_block lib now txs ec) ec ≡ true
  unfolding create_block verify_block
  create_block-verify_block now txs ec =
      let n = ec.cur_chain.current_block.header.number + 1 in
      rw ((nat_beq_iff n n).1 refl, beq_refl ec.cur_chain.current_block.hash) refl

  empty_root-has_trie :
      (chain : BlockChain) → lib.is_empty_root [] ≡ true → has_trie lib [] chain ≡ true
  unfolding has_trie
  empty_root-has_trie chain e = rw (e, find_trie) refl

  -- A node with a waiting transaction that proposes takes as many of them as the limit allows, in
  -- order, leaves the rest, stores the block on its chain and counts it; and as the block's header has
  -- no state root, the state on top of the chain then is the empty one, with no transaction executed.
  -- A missing root must open as the empty trie.
  pub propose_block-store :
      (max_size now broadcasting took finished : ℕ) (in_turn : Bool) (ec : ExCliqueNode)
      → lib.is_empty_root [] ≡ true
      → 0 < length ec.tx_pool
      → (b : Block) × (ec' : ExCliqueNode) × (propose_block sum64 lib max_size now broadcasting took
            finished in_turn ec
          ≡ some (b ∷ [], ec'))
        × (b.body ++ ec'.tx_pool ≡ ec.tx_pool)
        × (length b.body ≡ min max_size (length ec.tx_pool))
        × (ec'.cur_chain ≡ store b ec.cur_chain)
        × (open_trie lib ec'.cur_chain ≡ some [])
        × (ec'.block_count ≡ ec.block_count + 1)
  unfolding propose_block
  propose_block-store max_size now broadcasting took finished in_turn ec empty waiting =
      let txs = if ltb max_size (length ec.tx_pool) then take max_size ec.tx_pool else ec.tx_pool in
      let b = create_block lib now txs ec in
      let sent = record ec {
        tx_pool = drop (length txs) ec.tx_pool;
        broadcast_time = milliseconds broadcasting;
        delay_manager = record_broadcast_time broadcasting ec.delay_manager;
      } in
      let (added, went, chain, pool, blocks, forks) =
        add_block-store took b sent (create_block-verify_block now txs ec)
          (empty_root-has_trie ec.cur_chain empty) in
      let some_there : nat_beq (length ec.tx_pool) 0 ≡ false = ground arith in
      (
        b,
        record added {
          last_block_time = finished;
          order_manager = record_block ec.node_id in_turn added.order_manager;
          block_count = added.block_count + 1;
        },
        rw some_there (>>=-some (add_block sum64 lib took b sent) _ went),
        ap (λ p. b.body ++ p) pool ∙ limited-append max_size ec.tx_pool,
        length-limited max_size ec.tx_pool,
        chain,
        subst (λ c. open_trie lib c ≡ some []) (sym chain) (opens_empty b ec.cur_chain refl empty),
        ap (λ n. n + 1) blocks,
      )
