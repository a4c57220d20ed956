-- ===== src/Chain/Exec.antt =====
-- The loop of `GetUpdateStatusTrie`, over the accounts of the open trie.
pub mod Balances
pub mod Conservation
use blbchain.Base.{
  ℕ, zero, suc, ◌+◌, ◌-◌, ◌≤◌, ◌≡◌, Bool, true, false, not, ◌&&◌, ◌||◌, List, [], ◌∷◌, Option, none,
  some, String, string_eq, Map, lookup, insert, or_zero, ltb, nat_beq, if◌then◌else◌,
}
use blbchain.Core.Transaction.{Transaction}
use blbchain.Core.Block.{AccountState, deduct, deposit}
use blbchain.Chain.State.{Accounts}

-- A missing account is made with the initial balance; `i` is the transaction's place.
unfoldable pub account_at : ℕ → ℕ → String → Accounts → AccountState
unfolding lookup
account_at init_balance i addr st =
    or_zero (lookup addr st) (record { nonce = i; balance = init_balance })

abbrev one_if : Bool → ℕ
one_if true = 1
one_if false = 0

-- `home` is `Get_PartitionMap` of the chain; `shard` is the shard's number.
module _ (home : String → ℕ) (shard : ℕ) where
  unfoldable pub pays_here : Transaction → Bool
  pays_here tx = not tx.relayed && (nat_beq (home tx.sender) shard || tx.has_broker)

  unfoldable pub receives_here : Transaction → Bool
  receives_here tx = nat_beq (home tx.recipient) shard || tx.has_broker

module _ (home : String → ℕ) (shard init_balance : ℕ) where
  -- The sender's part; `none` is the `continue` of a balance that is not enough.
  unfoldable pub pay : ℕ → Transaction → Accounts → Option Accounts
  unfolding pays_here account_at deduct insert
  pay i tx st =
      let s = account_at init_balance i tx.sender st in
      if pays_here home shard tx
      then if ltb s.balance tx.value then none else some (insert tx.sender (deduct tx.value s).0 st)
      else some st

  unfoldable pub receive : ℕ → Transaction → Accounts → Accounts
  unfolding receives_here account_at deposit insert
  receive i tx st =
      if receives_here home shard tx
      then insert tx.recipient (deposit tx.value (account_at init_balance i tx.recipient st)) st
      else st

  -- One transaction, and how often it has changed an account.
  unfoldable pub exec_tx : ℕ → Transaction → Accounts → Accounts × ℕ
  unfolding pay receive
  exec_tx i tx st = elim (pay i tx st) [
    | none ↦ (st, 0)
    | some paid ↦
        (receive i tx paid, one_if (pays_here home shard tx) + one_if (receives_here home shard tx))
  ]

  unfoldable pub exec_txs : ℕ → List Transaction → Accounts → Accounts × ℕ
  unfolding exec_tx
  exec_txs i [] st = (st, 0)
  exec_txs i (tx ∷ txs) st =
      let (st', cnt) = exec_tx i tx st in
      let (st'', cnt') = exec_txs (i + 1) txs st' in (st'', cnt + cnt')
