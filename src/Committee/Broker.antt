-- ===== src/Committee/Broker.antt =====
-- supervisor/committee/committee_broker.go with broker/broker.go and the messages of message/message_broker.go,
-- without the fields that are marked as ignored. A handler is taken as one step, although
-- the code locks only parts of it; it gives what it sends and the state it
-- leaves. `none` is where the program stops.
use blbchain.Base.{
  ℕ, String, string_eq, Bool, true, false, not, ◌&&◌, ◌||◌, ◌==◌, Option, none, some, ◌>>=◌, List,
  [], ◌∷◌, ◌++◌, Bytes, bytes_eq, Map, lookup, insert, or_zero, is_some, all_true, nat_beq,
  if◌then◌else◌, get_elem?, length,
}
use blbchain.Core.Transaction.{Transaction, new_transaction}
use blbchain.Committee.{InjectTxs, tx_sending}

pub record BrokerRawMeg : Type 0 where
  pub tx : Transaction
  pub broker : String

pub record BrokerType1Meg : Type 0 where
  pub raw_meg : BrokerRawMeg
  pub broker : String

pub record Mag1Confirm : Type 0 where
  pub tx1_hash : Bytes
  pub raw_meg : BrokerRawMeg

pub record BrokerType2Meg : Type 0 where
  pub raw_meg : BrokerRawMeg
  pub broker : String

pub record Mag2Confirm : Type 0 where
  pub tx2_hash : Bytes
  pub raw_meg : BrokerRawMeg

pub record Broker : Type 0 where
  pub broker_raw_megs : Map Bytes BrokerRawMeg
  pub broker_address : List String
  pub raw_tx2broker_tx : Map Bytes (List Bytes)

pub record BrokerCommittee : Type 0 where
  pub broker : Broker
  pub broker_confirm1_pool : Map Bytes Mag1Confirm
  pub broker_confirm2_pool : Map Bytes Mag2Confirm

-- A shard's report of a block, with the times left out.
pub record BrokerBlockInfo : Type 0 where
  pub block_body_length : ℕ
  pub inner_shard_txs : List Transaction
  pub sender_shard_id : ℕ
  pub broker1_txs : List Transaction
  pub broker2_txs : List Transaction

unfoldable pub is_broker : String → List String → Bool
is_broker address [] = false
is_broker address (broker ∷ brokers) = broker == address || is_broker address brokers

-- The addresses are those of the file of brokers, as many as there are, at most the number asked for.
unfoldable pub new_broker_committee : List String → BrokerCommittee
new_broker_committee addresses = record {
  broker = record { broker_raw_megs = []; broker_address = addresses; raw_tx2broker_tx = [] };
  broker_confirm1_pool = [];
  broker_confirm2_pool = [];
}

-- What the code takes from libraries: the hash of a transaction, the SHA-256 of a raw message's encoding, and the
-- clock when the two transactions of a raw one are made.
pub record BrokerLibrary : Type 0 where
  pub hash : Transaction → Bytes
  pub digest : BrokerRawMeg → Bytes
  pub clock1 : Transaction → ℕ
  pub clock2 : Transaction → ℕ

unfoldable pub mark_broker : List String → Transaction → Transaction
unfolding is_broker
mark_broker brokers tx =
    if is_broker tx.recipient brokers || is_broker tx.sender brokers
    then record tx { has_broker = true; sender_is_broker = is_broker tx.sender brokers }
    else tx

-- `fetch` is `fetchModifiedMap`; it finds no shard where `Addr2Shard` stops the program.
module _ (fetch : String → Option ℕ) (brokers : List String) where
  -- Does the transaction, whose two shards are known, need a broker?
  unfoldable pub needs_broker : Transaction → Bool
  unfolding is_broker
  needs_broker tx =
      not (nat_beq (or_zero (fetch tx.recipient) 0) (or_zero (fetch tx.sender) 0))
      && not (is_broker tx.recipient brokers)
      && not (is_broker tx.sender brokers)

  unfoldable pub broker_route : Transaction → Option ℕ
  unfolding is_broker
  broker_route tx = do
    sender_shard ← fetch tx.sender
    if is_broker tx.sender brokers then fetch tx.recipient else some sender_shard

  -- The loop of `dealTxByBroker`.
  unfoldable pub deal_loop : List Transaction → Option (List BrokerRawMeg × List Transaction)
  unfolding needs_broker mark_broker
  deal_loop [] = some ([], [])
  deal_loop (tx ∷ txs) = elim (is_some (fetch tx.recipient) && is_some (fetch tx.sender)) [
    | false ↦ none
    | true ↦ elim (needs_broker tx) [
      | true ↦ do
        address ← get_elem? brokers 0
        (megs, itxs) ← deal_loop txs
        some (record { tx = tx; broker = address } ∷ megs, itxs)
      | false ↦ do (megs, itxs) ← deal_loop txs; some (megs, mark_broker brokers tx ∷ itxs)
    ]
  ]

module _ (lib : BrokerLibrary) where
  -- The first transaction, from the sender to the broker.
  unfoldable pub tx1_of : BrokerType1Meg → Transaction
  unfolding new_transaction
  tx1_of meg =
      let ctx = meg.raw_meg.tx in
      let tx1 =
        new_transaction lib.hash ctx.sender meg.broker ctx.value ctx.nonce (lib.clock1 ctx) in
      record tx1 {
        original_sender = ctx.sender;
        final_recipient = ctx.recipient;
        raw_tx_hash = ctx.tx_hash;
      }

  unfoldable pub type1_loop :
      List BrokerType1Meg → Map Bytes Mag1Confirm → List Transaction × Map Bytes Mag1Confirm
  unfolding tx1_of insert
  type1_loop [] pool = ([], pool)
  type1_loop (meg ∷ megs) pool =
      let tx1 = tx1_of meg in
      let (tx1s, pool') =
        type1_loop megs
          (insert tx1.tx_hash (record { tx1_hash = tx1.tx_hash; raw_meg = meg.raw_meg }) pool) in
      (tx1 ∷ tx1s, pool')

  -- The second, from the broker to the recipient.
  unfoldable pub tx2_of : BrokerType2Meg → Transaction
  unfolding new_transaction
  tx2_of meg =
      let ctx = meg.raw_meg.tx in
      let tx2 =
        new_transaction lib.hash meg.broker ctx.recipient ctx.value ctx.nonce (lib.clock2 ctx) in
      record tx2 {
        original_sender = ctx.sender;
        final_recipient = ctx.recipient;
        raw_tx_hash = ctx.tx_hash;
      }

  unfoldable pub type2_loop :
      List BrokerType2Meg → Map Bytes Mag2Confirm → List Transaction × Map Bytes Mag2Confirm
  unfolding tx2_of insert
  type2_loop [] pool = ([], pool)
  type2_loop (meg ∷ megs) pool =
      let tx2 = tx2_of meg in
      let (tx2s, pool') =
        type2_loop megs
          (insert tx2.tx_hash (record { tx2_hash = tx2.tx_hash; raw_meg = meg.raw_meg }) pool) in
      (tx2 ∷ tx2s, pool')

  -- The loop of `handleBrokerRawMag`.
  unfoldable pub raw_loop :
      List BrokerRawMeg → Map Bytes BrokerRawMeg → List BrokerType1Meg × Map Bytes BrokerRawMeg
  unfolding insert
  raw_loop [] megs = ([], megs)
  raw_loop (meg ∷ rest) megs =
      let (type1s, megs') = raw_loop rest (insert (lib.digest meg) meg megs) in
      (record { raw_meg = meg; broker = meg.broker } ∷ type1s, megs')

  abbrev pub append_hash : Bytes → Bytes → Map Bytes (List Bytes) → Map Bytes (List Bytes)
  append_hash raw h m = insert raw (or_zero (lookup raw m) [] ++ h ∷ []) m

  -- The loop of `handleTx1ConfirmMag`; a confirm without its raw message is passed over.
  unfoldable pub tx1_confirm_loop :
      List Mag1Confirm → Broker → Option (List BrokerType2Meg × Broker)
  unfolding lookup insert
  tx1_confirm_loop [] b = some ([], b)
  tx1_confirm_loop (c ∷ cs) b = elim (is_some (lookup (lib.digest c.raw_meg) b.broker_raw_megs)) [
    | false ↦ tx1_confirm_loop cs b
    | true ↦ do
      address ← get_elem? b.broker_address 0
      (type2s, b') ← tx1_confirm_loop cs (record b {
        raw_tx2broker_tx = append_hash c.raw_meg.tx.tx_hash c.tx1_hash b.raw_tx2broker_tx;
      })
      some (record { raw_meg = c.raw_meg; broker = address } ∷ type2s, b')
  ]

  -- `handleTx2ConfirmMag`.
  unfoldable pub handle_tx2_confirm_mag : List Mag2Confirm → BrokerCommittee → BrokerCommittee
  unfolding lookup insert
  handle_tx2_confirm_mag [] bcm = bcm
  handle_tx2_confirm_mag (c ∷ cs) bcm = handle_tx2_confirm_mag cs (record bcm {
    broker = record (bcm.broker) {
      raw_tx2broker_tx = append_hash c.raw_meg.tx.tx_hash c.tx2_hash bcm.broker.raw_tx2broker_tx;
    };
  })

-- The confirms of the transactions that a pool has, in order.
unfoldable pub confirms_of : {C : Type 0} → Map Bytes C → List Transaction → List C
unfolding lookup
confirms_of pool [] = []
confirms_of pool (tx ∷ txs) = elim (lookup tx.tx_hash pool) [
  | none ↦ confirms_of pool txs
  | some c ↦ c ∷ confirms_of pool txs
]

module _ (fetch : String → Option ℕ) (shard_num inject_speed : ℕ) where
  unfoldable pub broker_tx_sending : List Transaction → BrokerCommittee → Option (List InjectTxs)
  unfolding tx_sending broker_route
  broker_tx_sending txlist bcm =
      let route = broker_route fetch bcm.broker.broker_address in
      if all_true (λ tx. is_some (route tx)) txlist
      then tx_sending shard_num inject_speed (λ tx. or_zero (route tx) 0) txlist
      else none

module _ (lib : BrokerLibrary) (fetch : String → Option ℕ) (shard_num inject_speed : ℕ) where
  unfoldable pub handle_broker_type1_mes :
      List BrokerType1Meg → BrokerCommittee → Option (List InjectTxs × BrokerCommittee)
  unfolding type1_loop broker_tx_sending
  handle_broker_type1_mes megs bcm =
      let (tx1s, pool) = type1_loop lib megs bcm.broker_confirm1_pool in
      do
        sent ← broker_tx_sending fetch shard_num inject_speed tx1s bcm
        some (sent, record bcm { broker_confirm1_pool = pool })

  unfoldable pub handle_broker_type2_mes :
      List BrokerType2Meg → BrokerCommittee → Option (List InjectTxs × BrokerCommittee)
  unfolding type2_loop broker_tx_sending
  handle_broker_type2_mes megs bcm =
      let (tx2s, pool) = type2_loop lib megs bcm.broker_confirm2_pool in
      do
        sent ← broker_tx_sending fetch shard_num inject_speed tx2s bcm
        some (sent, record bcm { broker_confirm2_pool = pool })

  unfoldable pub handle_broker_raw_mag :
      List BrokerRawMeg → BrokerCommittee → Option (List InjectTxs × BrokerCommittee)
  unfolding raw_loop handle_broker_type1_mes
  handle_broker_raw_mag megs bcm =
      let (type1s, raw_megs) = raw_loop lib megs bcm.broker.broker_raw_megs in
      handle_broker_type1_mes type1s
        (record bcm { broker = record (bcm.broker) { broker_raw_megs = raw_megs } })

  -- The transactions that go to the shards as they are, what is sent for the others, and the state.
  unfoldable pub deal_tx_by_broker :
      List Transaction
      → BrokerCommittee
      → Option (List Transaction × List InjectTxs × BrokerCommittee)
  unfolding deal_loop handle_broker_raw_mag
  deal_tx_by_broker txs bcm = do
    (megs, itxs) ← deal_loop fetch bcm.broker.broker_address txs
    (sent, bcm') ←
        (if nat_beq (length megs) 0 then some ([], bcm) else handle_broker_raw_mag megs bcm)
    some (itxs, sent, bcm')

  unfoldable pub handle_tx1_confirm_mag :
      List Mag1Confirm → BrokerCommittee → Option (List InjectTxs × BrokerCommittee)
  unfolding tx1_confirm_loop handle_broker_type2_mes
  handle_tx1_confirm_mag confirms bcm = do
    (type2s, b) ← tx1_confirm_loop lib confirms bcm.broker
    handle_broker_type2_mes type2s (record bcm { broker = b })

  unfoldable pub create_confirm :
      List Transaction → BrokerCommittee → Option (List InjectTxs × BrokerCommittee)
  unfolding confirms_of handle_tx1_confirm_mag handle_tx2_confirm_mag
  create_confirm txs bcm =
      let confirm1s = confirms_of bcm.broker_confirm1_pool txs in
      let confirm2s = confirms_of bcm.broker_confirm2_pool txs in
      do
        (sent, bcm') ←
            (if nat_beq (length confirm1s) 0
              then some ([], bcm)
              else handle_tx1_confirm_mag confirm1s bcm)
        some (
          sent,
          if nat_beq (length confirm2s) 0 then bcm' else handle_tx2_confirm_mag lib confirm2s bcm',
        )

  unfoldable pub broker_handle_block_info :
      BrokerBlockInfo → BrokerCommittee → Option (List InjectTxs × BrokerCommittee)
  unfolding create_confirm
  broker_handle_block_info b bcm =
      if nat_beq b.block_body_length 0
      then some ([], bcm)
      else create_confirm (b.broker1_txs ++ b.broker2_txs) bcm
