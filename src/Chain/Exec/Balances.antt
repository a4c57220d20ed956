-- ===== src/Chain/Exec/Balances.antt =====
-- What executing transactions does to balances.
use blbchain.Base.{
  ℕ, ◌+◌, ◌≤◌, ◌≡◌, refl, ap, ◌∙◌, ◌⊎◌, inl, inr, Bool, true, false, not, ◌&&◌, ◌||◌, List, [], ◌∷◌,
  Option, none, some, String, string_eq, ◌==◌, insert, or_zero, lookup-insert_self,
  lookup-insert_ne, ltb, leb, if◌then◌else◌, Bool-cases, arith,
}
use blbchain.Core.Transaction.{Transaction}
use blbchain.Core.Block.{AccountState, deduct, deposit}
use blbchain.Chain.State.{Accounts}
use blbchain.Chain.Exec.{pays_here, receives_here, account_at, pay, receive, exec_tx}

-- An account that is missing has the initial balance.
unfoldable pub balance_of : ℕ → String → Accounts → ℕ
unfolding account_at
balance_of init addr st = (account_at init 0 addr st).balance

balance_of-account_at :
    (init i : ℕ) (addr : String) (st : Accounts)
    → (account_at init i addr st).balance ≡ balance_of init addr st
unfolding balance_of account_at
balance_of-account_at init i addr st = ground arith

balance_of-insert :
    (init : ℕ) (a b : String) (s : AccountState) (st : Accounts)
    → balance_of init b (insert a s st) ≡ (if a == b then s.balance else balance_of init b st)
unfolding balance_of account_at
balance_of-insert init a b s st = elim (Bool-cases (a == b)) [
  | inl t ↦ rw t (
      rw (← (string_eq.equals_iff a b).0 t) (
        ap (λ (o : Option AccountState). (or_zero o (record { nonce = 0; balance = init })).balance)
          (lookup-insert_self a s st)))
  | inr f ↦ rw f (
      ap (λ (o : Option AccountState). (or_zero o (record { nonce = 0; balance = init })).balance)
        (lookup-insert_ne a b s st f))
]

-- The value, where the test holds.
abbrev pub value_if : Bool → ℕ → ℕ
value_if b v = if b then v else 0

module _ (home : String → ℕ) (shard init : ℕ) where
  -- Does the sender's part go through?
  abbrev pub covered : Transaction → Accounts → Bool
  covered tx st = not (pays_here home shard tx) || leb tx.value (balance_of init tx.sender st)

  receive-balance_of :
      (i : ℕ) (tx : Transaction) (st : Accounts) (a : String)
      → balance_of init a (receive home shard init i tx st)
        ≡ balance_of init a st
          + value_if (receives_here home shard tx && tx.recipient == a) tx.value
  unfolding receive deposit
  receive-balance_of i tx st a = elim (Bool-cases (receives_here home shard tx)) [
    | inr f ↦ rw f (omega arith)
    | inl t ↦ rw t (
        balance_of-insert init tx.recipient a _ st ∙ (elim (Bool-cases (tx.recipient == a)) [
          | inl same ↦ rw same (
              omega (
                arith,
                balance_of-account_at init i tx.recipient st,
                ap (λ b. balance_of init b st) ((string_eq.equals_iff tx.recipient a).0 same),
              ))
          | inr other ↦ rw other (omega arith)
        ]))
  ]

  -- The sender's part is refused, or takes the value from the sender and from no other account.
  Pays : ℕ → Transaction → Accounts → Type 0
  Pays i tx st =
      ((pay home shard init i tx st ≡ none) × (covered tx st ≡ false))
      ⊎ ((paid : Accounts) × (pay home shard init i tx st ≡ some paid)
          × (covered tx st ≡ true)
          × ((a : String)
              → balance_of init a paid
                  + value_if (pays_here home shard tx && tx.sender == a) tx.value
                ≡ balance_of init a st))

  taken :
      (i : ℕ) (tx : Transaction) (st : Accounts)
      → tx.value ≤ balance_of init tx.sender st
      → ltb (account_at init i tx.sender st).balance tx.value ≡ false
      → (a : String)
      → balance_of init a (insert tx.sender (deduct tx.value (account_at init i tx.sender st)).0 st)
          + value_if (tx.sender == a) tx.value
        ≡ balance_of init a st
  unfolding deduct
  taken i tx st enough few a =
      rw
        (balance_of-insert init tx.sender a (deduct tx.value (account_at init i tx.sender st)).0 st)
        (elim (Bool-cases (tx.sender == a)) [
          | inr other ↦ rw other (omega arith)
          | inl same ↦
              rw (same, few)
                (omega (
                  arith,
                  balance_of-account_at init i tx.sender st,
                  ap (λ b. balance_of init b st) ((string_eq.equals_iff tx.sender a).0 same),
                ))
        ])

  pay-Pays : (i : ℕ) (tx : Transaction) (st : Accounts) → Pays i tx st
  unfolding pay Pays
  pay-Pays i tx st = elim (Bool-cases (pays_here home shard tx)) [
    | inr f ↦ rw f (inr (st, refl, refl, λ a. omega arith))
    | inl t ↦ rw t (elim (Bool-cases (ltb (account_at init i tx.sender st).balance tx.value)) [
      | inl few ↦ inl (rw few refl, ground (arith, balance_of-account_at init i tx.sender st))
      | inr enough ↦ inr (
        _,
        rw enough refl,
        ground (arith, balance_of-account_at init i tx.sender st),
        taken i tx st (ground (arith, balance_of-account_at init i tx.sender st)) enough,
      )
    ])
  ]

  -- Every branch of one transaction: where the sender's part goes through or is not due here, the
  -- sender's balance falls by the value if it is paid here, the recipient's rises by it if it is
  -- received here, and no other changes; where the sender's balance is too small nothing changes.
  pub exec_tx-balance_of :
      (i : ℕ) (tx : Transaction) (st : Accounts) (a : String)
      → balance_of init a (exec_tx home shard init i tx st).0
          + value_if (covered tx st && (pays_here home shard tx && tx.sender == a)) tx.value
        ≡ balance_of init a st
          + value_if (covered tx st && (receives_here home shard tx && tx.recipient == a)) tx.value
  unfolding exec_tx Pays
  exec_tx-balance_of i tx st a = elim (pay-Pays i tx st) [
    | inl (refused, low) ↦ rw (refused, exec_tx) (rw low refl)
    | inr (paid, went, high, moved) ↦
        rw (went, exec_tx) (rw high (omega (arith, moved a, receive-balance_of i tx paid a)))
  ]

-- The balances of some accounts together.
abbrev pub total : ℕ → List String → Accounts → ℕ
total init [] st = 0
total init (a ∷ addrs) st = balance_of init a st + total init addrs st

-- Each address is listed once.
abbrev pub occurs : String → List String → Bool
occurs a [] = false
occurs a (b ∷ bs) = (a == b) || occurs a bs

abbrev pub NoRepeats : List String → Type 0
NoRepeats [] = Unit
NoRepeats (a ∷ addrs) = (occurs a addrs ≡ false) × NoRepeats addrs
