-- ===== src/Committee/Sending.antt =====
-- Where the transactions go that a committee sends.
use blbchain.Base.{
  ℕ, zero, suc, ◌+◌, ◌%◌, ◌<◌, ◌≤◌, ◌≡◌, refl, sym, ◌∙◌, subst, nat_eq, Bool, true, false, ◌&&◌,
  none, some, List, [], ◌∷◌, ◌++◌, append_assoc, append-nil, inl, inr, Bool-cases, Map, lookup,
  lookup-insert_self, lookup-insert_ne, or_zero, ltb, lt→ltb, nat_beq, if◌then◌else◌, filterb,
  Gives, Gives-bind, Gives-if, arith,
}
use blbchain.Core.Transaction.{Transaction}
use blbchain.Committee.{InjectTxs, append_at, inject_all, injection_loop, tx_sending}

-- The transactions of the messages to a shard, in order.
unfoldable pub sent_to : ℕ → List InjectTxs → List Transaction
sent_to sid [] = []
sent_to sid (m ∷ ms) =
    let rest = sent_to sid ms in if nat_beq m.to_shard_id sid then m.txs ++ rest else rest

pub sent_to-append :
    (sid : ℕ) (xs ys : List InjectTxs) → sent_to sid (xs ++ ys) ≡ sent_to sid xs ++ sent_to sid ys
unfolding sent_to
sent_to-append sid [] ys = refl
sent_to-append sid (m ∷ xs) ys = elim (Bool-cases (nat_beq m.to_shard_id sid)) [
  | inl t ↦
      rw (t, sent_to-append sid xs ys) (sym (append_assoc m.txs (sent_to sid xs) (sent_to sid ys)))
  | inr f ↦ rw (f, sent_to-append sid xs ys) refl
]

inject_all-below :
    (sid from n : ℕ) (m : Map ℕ (List Transaction))
    → sid < from
    → sent_to sid (inject_all from n m) ≡ []
unfolding inject_all sent_to
inject_all-below sid from zero m h = refl
inject_all-below sid from (suc n) m h =
    rw (differ) (inject_all-below sid (suc from) n m (omega arith))
  where
    differ : nat_beq from sid ≡ false
    differ = ground arith

sent_to-inject_all :
    (sid from n : ℕ) (m : Map ℕ (List Transaction))
    → from ≤ sid
    → sid < from + n
    → sent_to sid (inject_all from n m) ≡ or_zero (lookup sid m) []
unfolding inject_all sent_to
sent_to-inject_all sid from zero m low high = absurd (omega arith)
sent_to-inject_all sid from (suc n) m low high = elim (Bool-cases (nat_beq from sid)) [
  | inl t ↦
      rw (t, inject_all-below sid (suc from) n m (ground arith), (nat_eq.equals_iff from sid).0 t)
        (append-nil (or_zero (lookup sid m) []))
  | inr f ↦ rw f (sent_to-inject_all sid (suc from) n m (ground arith) (omega arith))
]

lookup-append_at :
    (k sid : ℕ) (tx : Transaction) (m : Map ℕ (List Transaction))
    → or_zero (lookup sid (append_at k tx m)) []
      ≡ or_zero (lookup sid m) [] ++ (if nat_beq k sid then tx ∷ [] else [])
unfolding append_at
lookup-append_at k sid tx m = elim (Bool-cases (nat_beq k sid)) [
  | inl t ↦ rw t (
      subst (λ j. or_zero (lookup j (append_at k tx m)) [] ≡ or_zero (lookup j m) [] ++ tx ∷ [])
        ((nat_eq.equals_iff k sid).0 t)
        (rw (lookup-insert_self k (or_zero (lookup k m) [] ++ tx ∷ []) m) refl))
  | inr f ↦
      rw (f, lookup-insert_ne k sid (or_zero (lookup k m) [] ++ tx ∷ []) m f)
        (sym (append-nil (or_zero (lookup sid m) [])))
]

module _ (shard_num inject_speed : ℕ) (route : Transaction → ℕ) (sid : ℕ) where
  abbrev Delivers : List Transaction → List InjectTxs → Type 0
  Delivers txs msgs = sent_to sid msgs ≡ txs

  injection_loop-Delivers :
      (i : ℕ) (m : Map ℕ (List Transaction)) (txs : List Transaction)
      → 0 < inject_speed
      → sid < shard_num
      → Gives
          (Delivers (or_zero (lookup sid m) [] ++ filterb (λ tx. nat_beq (route tx) sid) txs))
          (injection_loop shard_num inject_speed route (suc i) m txs)
  unfolding injection_loop lookup
  injection_loop-Delivers i m [] fast small =
      rw (lt→ltb 0 (suc i) (omega arith), quick)
        (sent_to-inject_all sid 0 shard_num m (omega arith) (omega arith)
          ∙ sym (append-nil (or_zero (lookup sid m) [])))
    where
      quick : nat_beq inject_speed 0 ≡ false
      quick = ground arith
  injection_loop-Delivers i m (tx ∷ rest) fast small =
      let full = ltb 0 (suc i) && nat_beq (suc i % inject_speed) 0 in
      let kept : Map ℕ (List Transaction) = if full then [] else m in
      let all = or_zero (lookup sid m) [] ++ filterb (λ x. nat_beq (route x) sid) (tx ∷ rest) in
      Gives-if (Delivers all) (ltb 0 (suc i) && nat_beq inject_speed 0) none _
        (λ h. absurd (stopped h))
        (λ _.
          Gives-bind _ (Delivers all)
            (injection_loop shard_num inject_speed route (suc (suc i))
              (append_at (route tx) tx kept) rest)
            _ (injection_loop-Delivers (suc i) (append_at (route tx) tx kept) rest fast small)
            (λ later d. add_first full later d))
    where
      stopped : (ltb 0 (suc i) && nat_beq inject_speed 0) ≡ true → ⊥
      stopped h = ground arith

      one :
          (b : Bool) (others : List Transaction)
          → (if b then tx ∷ [] else []) ++ others ≡ (if b then tx ∷ others else others)
      one true others = refl
      one false others = refl

      add_first :
          (full : Bool) (later : List InjectTxs)
          → sent_to sid later
            ≡ or_zero (lookup sid (append_at (route tx) tx (if full then [] else m))) []
              ++ filterb (λ x. nat_beq (route x) sid) rest
          → sent_to sid ((if full then inject_all 0 shard_num m else []) ++ later)
            ≡ or_zero (lookup sid m) [] ++ filterb (λ x. nat_beq (route x) sid) (tx ∷ rest)
      add_first true later d =
          rw
            (
              sent_to-append sid (inject_all 0 shard_num m) later,
              sent_to-inject_all sid 0 shard_num m (omega arith) (omega arith),
              d,
              lookup-append_at (route tx) sid tx [],
              one (nat_beq (route tx) sid) (filterb (λ x. nat_beq (route x) sid) rest),
            )
            refl
      add_first false later d =
          rw
            (
              d,
              lookup-append_at (route tx) sid tx m,
              append_assoc (or_zero (lookup sid m) [])
                  (if nat_beq (route tx) sid then tx ∷ [] else [])
                  (filterb (λ x. nat_beq (route x) sid) rest),
              one (nat_beq (route tx) sid) (filterb (λ x. nat_beq (route x) sid) rest),
            )
            refl

  -- About
  pub tx_sending-filterb :
      (txlist : List Transaction)
      → 0 < inject_speed
      → sid < shard_num
      → Gives
          (λ msgs. sent_to sid msgs ≡ filterb (λ tx. nat_beq (route tx) sid) txlist)
          (tx_sending shard_num inject_speed route txlist)
  unfolding tx_sending injection_loop sent_to lookup
  tx_sending-filterb [] fast small = refl
  tx_sending-filterb (tx ∷ rest) fast small =
      Gives-bind _ _ (injection_loop shard_num inject_speed route 1 ((route tx, tx ∷ []) ∷ []) rest)
        _ (injection_loop-Delivers 0 ((route tx, tx ∷ []) ∷ []) rest fast small)
        (λ later d. d ∙ first (nat_beq (route tx) sid) (filterb (λ x. nat_beq (route x) sid) rest))
    where
      first :
          (b : Bool) (others : List Transaction)
          → or_zero (if b then some (tx ∷ []) else none) [] ++ others
            ≡ (if b then tx ∷ others else others)
      first true others = refl
      first false others = refl
