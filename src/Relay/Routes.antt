-- ===== src/Relay/Routes.antt =====
-- Where the loop of `HandleinCommit` puts a block's transactions.
use blbchain.Base.{
  ℕ, ◌≡◌, refl, sym, ap, ◌∙◌, inl, inr, Bool, true, false, not, ◌&&◌, ◌||◌, All, arith, some,
  >>=-some, List, [], ◌∷◌, ◌++◌, append_assoc, append-nil, map, filterb, String, nat_eq, nat_beq,
  nat_beq_iff, if◌then◌else◌, Bool-cases, Map, lookup, insert, or_zero, lookup-insert_self,
  lookup-insert_ne,
}
use blbchain.Core.Transaction.{Transaction}
use blbchain.Core.TxPool.{TxPool, add_relay_tx, relay_txs}
use blbchain.Relay.{Routed, mark, misplaced, route_tx, route_txs}

-- The pool after a transaction is added to a relay pool that is not nil.
abbrev with_relay : Transaction → ℕ → Map ℕ (List Transaction) → TxPool → TxPool
with_relay tx shard m p = record p {
  relay_pool = some (insert shard (relay_txs shard p ++ tx ∷ []) m);
}

relay_txs-with_relay :
    (tx : Transaction) (shard sid : ℕ) (m : Map ℕ (List Transaction)) (p : TxPool)
    → p.relay_pool ≡ some m
    → relay_txs sid (with_relay tx shard m p)
      ≡ relay_txs sid p ++ (if nat_beq shard sid then tx ∷ [] else [])
unfolding relay_txs
relay_txs-with_relay tx shard sid m p e = elim (Bool-cases (nat_beq shard sid)) [
  | inl t ↦ rw t (
      ap (λ k. or_zero (lookup k (insert shard (relay_txs shard p ++ tx ∷ []) m)) [])
        (sym ((nat_beq_iff shard sid).0 t))
      ∙ ap (λ o. or_zero o []) (lookup-insert_self shard (relay_txs shard p ++ tx ∷ []) m)
      ∙ ap (λ k. relay_txs k p ++ tx ∷ []) ((nat_beq_iff shard sid).0 t))
  | inr f ↦ rw f (
      ap (λ o. or_zero o []) (lookup-insert_ne shard sid (relay_txs shard p ++ tx ∷ []) m f)
      ∙ rw e (sym (append-nil _)))
]

grow :
    (xs ys zs : List Transaction) {xs' xs'' ws : List Transaction}
    → xs' ≡ xs ++ ys
    → xs'' ≡ xs' ++ zs
    → ys ++ zs ≡ ws
    → xs'' ≡ xs ++ ws
grow xs ys zs p q e = q ∙ ap (λ l. l ++ zs) p ∙ append_assoc xs ys zs ∙ ap (λ l. xs ++ l) e

map-filterb-cons :
    (f : Transaction → Transaction) (q : Transaction → Bool) (x : Transaction)
    (xs : List Transaction)
    → map f (filterb q (x ∷ [])) ++ map f (filterb q xs) ≡ map f (filterb q (x ∷ xs))
map-filterb-cons f q x xs = elim (Bool-cases (q x)) [ inl t ↦ rw t refl | inr u ↦ rw u refl ]

filterb-cons :
    (q : Transaction → Bool) (x : Transaction) (xs : List Transaction)
    → filterb q (x ∷ []) ++ filterb q xs ≡ filterb q (x ∷ xs)
filterb-cons q x xs = elim (Bool-cases (q x)) [ inl t ↦ rw t refl | inr u ↦ rw u refl ]

-- The program finds a shard for the sender and for the recipient.
abbrev pub HaveHomes : (String → Bool) → Transaction → Type 0
HaveHomes has_home tx = (has_home tx.sender ≡ true) × (has_home tx.recipient ≡ true)

module _ (home : String → ℕ) (shard : ℕ) where
  -- The first time it belongs where its sender lives, the second time where its recipient does.
  abbrev pub belongs : Transaction → Bool
  belongs tx =
      if tx.relayed then nat_beq (home tx.recipient) shard else nat_beq (home tx.sender) shard

  belongs-misplaced : (tx : Transaction) → belongs tx ≡ not (misplaced home shard tx)
  unfolding misplaced
  belongs-misplaced tx =
      by_cases tx.relayed (nat_beq (home tx.sender) shard) (nat_beq (home tx.recipient) shard)
    where
      by_cases :
          (again s r : Bool)
          → (if again then r else s) ≡ not ((not again && not s) || (again && not r))
      by_cases again s r = ground arith

  -- A transaction that belongs into the block, and whose recipient lives in another shard.
  abbrev pub leaves : Transaction → Bool
  leaves tx = belongs tx && not (nat_beq (home tx.recipient) shard)

  abbrev pub leaves_for : ℕ → Transaction → Bool
  leaves_for sid tx = leaves tx && nat_beq (home tx.recipient) sid

  -- One that belongs into the block, and whose recipient lives here.
  abbrev pub arrives : Bool → Transaction → Bool
  arrives relayed tx =
      belongs tx
      && (nat_beq (home tx.recipient) shard && (if relayed then tx.relayed else not tx.relayed))

  -- What the loop makes of a list of transactions.
  pub record RoutesTo (txs : List Transaction) (r r' : Routed) : Type 0 where
    pub left : r'.relay1 ≡ r.relay1 ++ map mark (filterb leaves txs)
    pub second : r'.relay2 ≡ r.relay2 ++ filterb (arrives true) txs
    pub inner : r'.inter_shard ≡ r.inter_shard ++ filterb (arrives false) txs
    pub pooled :
        (sid : ℕ)
        → relay_txs sid r'.pool ≡ relay_txs sid r.pool ++ map mark (filterb (leaves_for sid) txs)
    pub queued : r'.pool.tx_queue ≡ r.pool.tx_queue
    pub marked : r'.body ≡ r.body ++ map (λ tx. if leaves tx then mark tx else tx) txs

  -- The round of one transaction.
  Round : Transaction → Routed → Type 0
  Round tx r =
      (r' : Routed) × (m : Map ℕ (List Transaction)) × (route_tx home shard tx r ≡ some r')
      × (r'.pool.relay_pool ≡ some m)
      × RoutesTo (tx ∷ []) r r'

  route_tx-Round :
      (tx : Transaction) (r : Routed) (m : Map ℕ (List Transaction))
      → r.pool.relay_pool ≡ some m
      → Round tx r
  unfolding Round route_tx
  route_tx-Round tx r m e = elim (Bool-cases (misplaced home shard tx)) [
    | inl wrong ↦ (
      record r { body = r.body ++ tx ∷ [] },
      m,
      rw wrong refl,
      e,
      record {
        left = rw (fits_not wrong) (sym (append-nil r.relay1));
        second = rw (fits_not wrong) (sym (append-nil r.relay2));
        inner = rw (fits_not wrong) (sym (append-nil r.inter_shard));
        pooled = λ sid. rw (fits_not wrong) (sym (append-nil _));
        queued = refl;
        marked = rw (fits_not wrong) refl;
      },
    )
    | inr fine ↦ elim (Bool-cases (nat_beq (home tx.recipient) shard)) [
      | inr far ↦ route_away fine far
      | inl near ↦ elim (Bool-cases tx.relayed) [
        | inl again ↦ (
          record r { relay2 = r.relay2 ++ tx ∷ []; body = r.body ++ tx ∷ [] },
          m,
          rw (fine, near, again) refl,
          e,
          record {
            left = rw ((fits fine), near) (sym (append-nil r.relay1));
            second = rw ((fits fine), near, again) refl;
            inner = rw ((fits fine), near, again) (sym (append-nil r.inter_shard));
            pooled = λ sid. rw ((fits fine), near) (sym (append-nil _));
            queued = refl;
            marked = rw ((fits fine), near) refl;
          },
        )
        | inr once ↦ (
          record r { inter_shard = r.inter_shard ++ tx ∷ []; body = r.body ++ tx ∷ [] },
          m,
          rw (fine, near, once) refl,
          e,
          record {
            left = rw ((fits fine), near) (sym (append-nil r.relay1));
            second = rw ((fits fine), near, once) (sym (append-nil r.relay2));
            inner = rw ((fits fine), near, once) refl;
            pooled = λ sid. rw ((fits fine), near) (sym (append-nil _));
            queued = refl;
            marked = rw ((fits fine), near) refl;
          },
        )
      ]
    ]
  ]
    where
      fits : misplaced home shard tx ≡ false → belongs tx ≡ true
      fits h = belongs-misplaced tx ∙ ap not h

      fits_not : misplaced home shard tx ≡ true → belongs tx ≡ false
      fits_not h = belongs-misplaced tx ∙ ap not h

      route_away :
          misplaced home shard tx ≡ false → nat_beq (home tx.recipient) shard ≡ false → Round tx r
      route_away fine far = (
        record r {
          relay1 = r.relay1 ++ mark tx ∷ [];
          pool = with_relay (mark tx) (home tx.recipient) m r.pool;
          body = r.body ++ mark tx ∷ [];
        },
        insert (home tx.recipient) (relay_txs (home tx.recipient) r.pool ++ mark tx ∷ []) m,
        rw (fine, far)
            (>>=-some (add_relay_tx (mark tx) (home tx.recipient) r.pool) _
              (unfold add_relay_tx in (rw e refl))),
        refl,
        record {
          left = rw ((fits fine), far) refl;
          second = rw ((fits fine), far) (sym (append-nil r.relay2));
          inner = rw ((fits fine), far) (sym (append-nil r.inter_shard));
          pooled = λ sid.
              relay_txs-with_relay (mark tx) (home tx.recipient) sid m r.pool e
              ∙ ap (λ xs. relay_txs sid r.pool ++ xs) (same (fits fine) far sid);
          queued = refl;
          marked = rw ((fits fine), far) refl;
        },
      )
        where
          same :
              belongs tx ≡ true
              → nat_beq (home tx.recipient) shard ≡ false
              → (sid : ℕ)
              → (if nat_beq (home tx.recipient) sid then mark tx ∷ [] else [])
                ≡ map mark (filterb (leaves_for sid) (tx ∷ []))
          same fine far sid =
              rw (fine, far)
                (elim (Bool-cases (nat_beq (home tx.recipient) sid)) [
                  | inl t ↦ rw t refl
                  | inr f ↦ rw f refl
                ])

  RoutesTo-cons :
      (tx : Transaction) (txs : List Transaction) (r r' r'' : Routed)
      → RoutesTo (tx ∷ []) r r'
      → RoutesTo txs r' r''
      → RoutesTo (tx ∷ txs) r r''
  RoutesTo-cons tx txs r r' r'' a b = record {
    left = grow _ _ _ a.left b.left (map-filterb-cons mark leaves tx txs);
    second = grow _ _ _ a.second b.second (filterb-cons (arrives true) tx txs);
    inner = grow _ _ _ a.inner b.inner (filterb-cons (arrives false) tx txs);
    pooled = λ sid.
        grow _ _ _ (a.pooled sid) (b.pooled sid) (map-filterb-cons mark (leaves_for sid) tx txs);
    queued = b.queued ∙ a.queued;
    marked = grow _ _ _ a.marked b.marked refl;
  }

  -- Where the relay pool is not nil and the program finds a shard for each transaction's sender and
  -- recipient, the loop does not panic. A transaction belongs where its sender lives the first time, and
  -- where its recipient lives the second time. The loop puts each one that belongs here into exactly one
  -- list by its recipient's shard and by whether it comes the second time, in the block's order, marks
  -- those that leave, and adds them to the relay pool of the recipient's shard; the queue is as it was.
  pub route_txs-RoutesTo :
      (has_home : String → Bool) (txs : List Transaction) (r : Routed)
      (m : Map ℕ (List Transaction))
      → All (HaveHomes has_home) txs
      → r.pool.relay_pool ≡ some m
      → (r' : Routed) × (route_txs has_home home shard txs r ≡ some r') × RoutesTo txs r r'
  unfolding route_txs Round
  route_txs-RoutesTo has_home [] r m homes e = (
    r,
    refl,
    record {
      left = sym (append-nil r.relay1);
      second = sym (append-nil r.relay2);
      inner = sym (append-nil r.inter_shard);
      pooled = λ sid. sym (append-nil _);
      queued = refl;
      marked = sym (append-nil r.body);
    },
  )
  route_txs-RoutesTo has_home (tx ∷ txs) r m ((from, to), homes) e =
      let (r', m', went, e', a) = route_tx-Round tx r m e in
      let (r'', later, b) = route_txs-RoutesTo has_home txs r' m' homes e' in
      (
        r'',
        rw (from, to) (>>=-some (route_tx home shard tx r) _ went ∙ later),
        RoutesTo-cons tx txs r r' r'' a b,
      )
