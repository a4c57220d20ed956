-- ===== src/Chain/Exec/Conservation.antt =====
-- The sum of balances over a block of transactions inside the shard.
use blbchain.Base.{
  ℕ, ◌+◌, ◌≡◌, refl, sym, ap, ◌∙◌, inl, inr, Bool, true, false, ◌&&◌, ◌||◌, List, [], ◌∷◌, String,
  string_eq, ◌==◌, nat_beq_iff, Bool-cases, All, arith,
}
use blbchain.Core.Transaction.{Transaction}
use blbchain.Chain.State.{Accounts}
use blbchain.Chain.Exec.{pays_here, receives_here, exec_tx, exec_txs}
use blbchain.Chain.Exec.Balances.{value_if, covered, exec_tx-balance_of, total, occurs, NoRepeats}

-- What an amount at one address adds to a list's total.
abbrev pub spread : Bool → String → ℕ → List String → ℕ
spread on a v [] = 0
spread on a v (b ∷ bs) = value_if (on && (a == b)) v + spread on a v bs

spread-absent :
    (on : Bool) (a : String) (v : ℕ) (bs : List String) → occurs a bs ≡ false → spread on a v bs ≡ 0
spread-absent on a v [] h = refl
spread-absent true a v (b ∷ bs) h = ground (arith, spread-absent true a v bs)
spread-absent false a v (b ∷ bs) h = ground (arith, spread-absent false a v bs)

pub spread-present :
    (on : Bool) (a : String) (v : ℕ) (bs : List String)
    → NoRepeats bs
    → occurs a bs ≡ true
    → spread on a v bs ≡ value_if on v
spread-present on a v [] d h = cc
spread-present on a v (b ∷ bs) (fresh, d) h = elim (Bool-cases (a == b)) [
  | inl same ↦
      let gone =
        spread-absent on a v bs
          (ap (λ c. occurs c bs) ((string_eq.equals_iff a b).0 same) ∙ fresh) in
      rw (same, gone) (ground arith)
  | inr other ↦ rw (other, spread-present on a v bs d (later other h)) (ground arith)
]
  where
    later : (a == b) ≡ false → ((a == b) || occurs a bs) ≡ true → occurs a bs ≡ true
    later other h = rw other at h

value_if-and : (p q r : Bool) (v : ℕ) → value_if ((p && q) && r) v ≡ value_if (p && (q && r)) v
value_if-and true q r v = refl
value_if-and false q r v = refl

module _ (home : String → ℕ) (shard init : ℕ) where
  -- The sender and the recipient are accounts of this shard, among those listed.
  abbrev pub IsInner : List String → Transaction → Type 0
  IsInner addrs tx =
      (tx.relayed ≡ false)
      × (home tx.sender ≡ shard)
      × (home tx.recipient ≡ shard)
      × (occurs tx.sender addrs ≡ true)
      × (occurs tx.recipient addrs ≡ true)

  pub total-exec_tx :
      (i : ℕ) (tx : Transaction) (st : Accounts) (addrs : List String)
      → total init addrs (exec_tx home shard init i tx st).0
          + spread
              (covered home shard init tx st && pays_here home shard tx)
              tx.sender
              tx.value
              addrs
        ≡ total init addrs st
          + spread
              (covered home shard init tx st && receives_here home shard tx)
              tx.recipient
              tx.value
              addrs
  total-exec_tx i tx st [] = refl
  total-exec_tx i tx st (a ∷ addrs) = omega (
    arith,
    exec_tx-balance_of home shard init i tx st a,
    total-exec_tx i tx st addrs,
    value_if-and (covered home shard init tx st) (pays_here home shard tx) (tx.sender == a)
        tx.value,
    value_if-and (covered home shard init tx st) (receives_here home shard tx) (tx.recipient == a)
        tx.value,
  )

  inner_pays :
      (addrs : List String) (tx : Transaction) → IsInner addrs tx → pays_here home shard tx ≡ true
  unfolding pays_here
  inner_pays addrs tx (fresh, from, to, s, r) =
      rw (fresh, (nat_beq_iff (home tx.sender) shard).1 from) refl

  inner_receives :
      (addrs : List String) (tx : Transaction)
      → IsInner addrs tx
      → receives_here home shard tx ≡ true
  unfolding receives_here
  inner_receives addrs tx (fresh, from, to, s, r) =
      rw ((nat_beq_iff (home tx.recipient) shard).1 to) refl

  -- Executing a block whose transactions are all between accounts of the shard, in any order and
  -- with any balances, keeps the sum of the balances of any accounts that include theirs.
  pub total-exec_txs :
      (i : ℕ) (txs : List Transaction) (st : Accounts) (addrs : List String)
      → NoRepeats addrs
      → All (IsInner addrs) txs
      → total init addrs (exec_txs home shard init i txs st).0 ≡ total init addrs st
  unfolding exec_txs
  total-exec_txs i [] st addrs d h = refl
  total-exec_txs i (tx ∷ txs) st addrs d (inner, h) =
      let paid = covered home shard init tx st && pays_here home shard tx in
      let received = covered home shard init tx st && receives_here home shard tx in
      let same : paid ≡ received =
        ap (λ b. covered home shard init tx st && b)
          (inner_pays addrs tx inner ∙ sym (inner_receives addrs tx inner)) in
      total-exec_txs (i + 1) txs (exec_tx home shard init i tx st).0 addrs d h
      ∙ omega (
        arith,
        total-exec_tx i tx st addrs,
        spread-present paid tx.sender tx.value addrs d inner.3,
        spread-present received tx.recipient tx.value addrs d inner.4,
        ap (λ b. value_if b tx.value) same,
      )
