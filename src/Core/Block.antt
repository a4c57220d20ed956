-- ===== src/Core/Block.antt =====
-- core/block.go and core/account.go: blocks, and the accounts of the state trie. Balances are not
-- negative: they start at `Init_Balance`, and `Deduct` is called after a test.
use blbchain.Base.{ℕ, ◌+◌, ◌-◌, Bool, true, false, List, Bytes, ltb, if◌then◌else◌}
use blbchain.Core.Transaction.{Transaction}

pub record BlockHeader : Type 0 where
  pub parent_block_hash : Bytes
  pub state_root : Bytes
  pub tx_root : Bytes
  pub bloom : List ℕ
  pub number : ℕ
  pub time : ℕ
  pub miner : ℕ

pub record Block : Type 0 where
  pub header : BlockHeader
  pub body : List Transaction
  pub hash : Bytes

pub record AccountState : Type 0 where
  pub nonce : ℕ
  pub balance : ℕ

-- The flag says whether the balance was enough.
unfoldable pub deduct : ℕ → AccountState → AccountState × Bool
deduct val s =
    if ltb s.balance val then (s, false) else (record s { balance = s.balance - val }, true)

unfoldable pub deposit : ℕ → AccountState → AccountState
deposit value s = record s { balance = s.balance + value }
