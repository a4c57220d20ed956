-- ===== src/Relay/Money.antt =====
-- The money of two shards when a transaction between them is executed in both.
use blbchain.Base.{
  ℕ, ◌+◌, ◌≡◌, ◌≢◌, refl, ap, ◌∙◌, Bool, true, false, not, ◌&&◌, List, [], ◌∷◌, String, string_eq,
  arith,
}
use blbchain.Core.Transaction.{Transaction}
use blbchain.Chain.State.{Accounts}
use blbchain.Chain.Exec.{pays_here, receives_here, exec_tx}
use blbchain.Chain.Exec.Balances.{value_if, covered, total, occurs, NoRepeats}
use blbchain.Chain.Exec.Conservation.{spread, spread-present, total-exec_tx}
use blbchain.Relay.{mark, misplaced}
use blbchain.Relay.Routes.{leaves_for}

spread-false : (a : String) (v : ℕ) (bs : List String) → spread false a v bs ≡ 0
spread-false a v [] = refl
spread-false a v (b ∷ bs) = omega (arith, spread-false a v bs)

and_true : (c p : Bool) → p ≡ true → (c && p) ≡ c
and_true true p h = h
and_true false p h = refl

and_false : (c p : Bool) → p ≡ false → (c && p) ≡ false
and_false true p h = h
and_false false p h = refl

-- A transaction from an account of one shard to one of another, on its way for the first time.
pub record IsCross (home : String → ℕ) (from to : ℕ) (tx : Transaction) : Type 0 where
  pub apart : from ≢ to
  pub fresh : tx.relayed ≡ false
  pub plain : tx.has_broker ≡ false
  pub starts : home tx.sender ≡ from
  pub ends : home tx.recipient ≡ to

module _ (home : String → ℕ) (from to init : ℕ) (tx : Transaction)
    (x : IsCross home from to tx) where
  pays_from : pays_here home from tx ≡ true
  unfolding pays_here
  pays_from = ground (arith, x.fresh, x.starts)

  keeps_from : receives_here home from tx ≡ false
  unfolding receives_here
  keeps_from = ground (arith, x.plain, x.ends, x.apart)

  keeps_to : pays_here home to (mark tx) ≡ false
  unfolding pays_here
  keeps_to = refl

  receives_to : receives_here home to (mark tx) ≡ true
  unfolding receives_here
  receives_to = ground (arith, x.ends)

  routed : leaves_for home from to tx ≡ true
  unfolding misplaced
  routed = ground (arith, x.fresh, x.starts, x.ends, x.apart)

  total_from :
      (i : ℕ) (st : Accounts) (addrs : List String)
      → NoRepeats addrs
      → occurs tx.sender addrs ≡ true
      → total init addrs (exec_tx home from init i tx st).0
          + value_if (covered home from init tx st) tx.value
        ≡ total init addrs st
  total_from i st addrs d there =
      let c = covered home from init tx st in
      omega (
        arith,
        total-exec_tx home from init i tx st addrs,
        spread-present (c && pays_here home from tx) tx.sender tx.value addrs d there,
        ap (λ b. value_if b tx.value) (and_true c (pays_here home from tx) pays_from),
        ap (λ b. spread b tx.recipient tx.value addrs)
            (and_false c (receives_here home from tx) keeps_from),
        spread-false tx.recipient tx.value addrs,
      )

  total_to :
      (i : ℕ) (st : Accounts) (addrs : List String)
      → NoRepeats addrs
      → occurs tx.recipient addrs ≡ true
      → total init addrs (exec_tx home to init i (mark tx) st).0 ≡ total init addrs st + tx.value
  total_to i st addrs d there =
      let c = covered home to init (mark tx) st in
      let free : c ≡ true = rw keeps_to refl in
      omega (
        arith,
        total-exec_tx home to init i (mark tx) st addrs,
        spread-present (c && receives_here home to (mark tx)) tx.recipient tx.value addrs d there,
        ap (λ b. value_if b tx.value)
            (and_true c (receives_here home to (mark tx)) receives_to ∙ free),
        ap (λ b. spread b tx.sender tx.value addrs)
            (and_false c (pays_here home to (mark tx)) keeps_to),
        spread-false tx.sender tx.value addrs,
      )

  -- A transaction from an account of one shard to one of another, executed in both, keeps the sum of
  -- the balances of the two shards where the sender's balance covers it; where it does not, the
  -- transaction is sent on all the same and the sum grows by its value.
  pub relay-total :
      (i j : ℕ) (st st' : Accounts) (addrs addrs' : List String)
      → NoRepeats addrs
      → NoRepeats addrs'
      → occurs tx.sender addrs ≡ true
      → occurs tx.recipient addrs' ≡ true
      → (leaves_for home from to tx ≡ true)
        × (total init addrs (exec_tx home from init i tx st).0
              + total init addrs' (exec_tx home to init j (mark tx) st').0
            ≡ total init addrs st
              + total init addrs' st'
              + value_if (not (covered home from init tx st)) tx.value)
  relay-total i j st st' addrs addrs' d d' there there' =
      (routed, ground (arith, total_from i st addrs d there, total_to j st' addrs' d' there'))
