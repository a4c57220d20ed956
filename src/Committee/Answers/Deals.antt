-- ===== src/Committee/Answers/Deals.antt =====
-- `dealTxByBroker`: which transactions of the data set go through a broker.
use blbchain.Base.{
  false, ◌&&◌, ◌||◌, Bool, Option, or_zero, is_some, ap₂, if◌then◌else◌, string_eq, ℕ, ◌<◌, ◌≡◌,
  refl, sym, ap, ◌∙◌, subst, String, true, not, List, [], ◌∷◌, map, Bytes, Map, nat_beq, length,
  filterb, All, All-map, Bool-cases, inl, inr, Gives, Gives-bind, Gives-if, arith,
}
use blbchain.Core.Transaction.{Transaction}
use blbchain.Committee.{InjectTxs}
use blbchain.Committee.Sending.{sent_to}
use blbchain.Committee.Broker.{
  BrokerType1Meg, BrokerRawMeg, BrokerType1Meg, BrokerCommittee, BrokerLibrary, is_broker,
  mark_broker, needs_broker, deal_loop, tx1_of, type1_loop, raw_loop, broker_tx_sending,
  handle_broker_type1_mes, handle_broker_raw_mag, deal_tx_by_broker,
}
use blbchain.Committee.Answers.{
  IsRoutable, Filed, IsKnown, IsPaired, Carries, CarriesPaired, first_meg, type1_loop-map,
  raw_loop-map, broker_tx_sending-Carries,
}

abbrev pub raw_of : String → Transaction → BrokerRawMeg
raw_of address tx = record { tx = tx; broker = address }

-- Its shards differ, and no broker sends or receives it.
abbrev pub crosses : (String → Option ℕ) → List String → Transaction → Bool
crosses fetch brokers tx =
    if is_broker tx.sender brokers || is_broker tx.recipient brokers
    then false
    else not (nat_beq (or_zero (fetch tx.sender) 0) (or_zero (fetch tx.recipient) 0))

needs_broker-crosses :
    (fetch : String → Option ℕ) (brokers : List String) (tx : Transaction)
    → needs_broker fetch brokers tx ≡ crosses fetch brokers tx
unfolding needs_broker
needs_broker-crosses fetch brokers tx =
    at (or_zero (fetch tx.sender) 0) (or_zero (fetch tx.recipient) 0) (is_broker tx.sender brokers)
      (is_broker tx.recipient brokers)
  where
    at :
        (m n : ℕ) (s r : Bool)
        → (not (nat_beq n m) && not r && not s) ≡ (if s || r then false else not (nat_beq m n))
    at m n s r = ground arith

-- What is noted of a transaction that is sent as it is.
abbrev pub marked : List String → Transaction → Transaction
marked brokers tx = record tx {
  has_broker = tx.has_broker || (is_broker tx.sender brokers || is_broker tx.recipient brokers);
  sender_is_broker =
      if is_broker tx.sender brokers
      then true
      else if is_broker tx.recipient brokers
      then false
      else tx.sender_is_broker;
}

mark_broker-marked :
    (brokers : List String) (tx : Transaction) → mark_broker brokers tx ≡ marked brokers tx
unfolding mark_broker
mark_broker-marked brokers tx = at tx (is_broker tx.sender brokers) (is_broker tx.recipient brokers)
  where
    or_true : (b : Bool) → true ≡ (b || true)
    or_true b = ground arith

    or_false : (b : Bool) → b ≡ (b || false)
    or_false b = ground arith

    at :
        (tx : Transaction) (s r : Bool)
        → (if r || s then record tx { has_broker = true; sender_is_broker = s } else tx)
          ≡ record tx {
            has_broker = tx.has_broker || (s || r);
            sender_is_broker = if s then true else if r then false else tx.sender_is_broker;
          }
    at tx true true =
        ap (λ b. record tx { has_broker = b; sender_is_broker = true }) (or_true tx.has_broker)
    at tx true false =
        ap (λ b. record tx { has_broker = b; sender_is_broker = true }) (or_true tx.has_broker)
    at tx false true =
        ap (λ b. record tx { has_broker = b; sender_is_broker = false }) (or_true tx.has_broker)
    at tx false false = ap (λ b. record tx { has_broker = b }) (or_false tx.has_broker)

-- The program finds the shards of both addresses.
abbrev pub AreFound : (String → Option ℕ) → Transaction → Type 0
AreFound fetch tx = (is_some (fetch tx.recipient) ≡ true) × (is_some (fetch tx.sender) ≡ true)

abbrev Split :
    (String → Option ℕ)
    → List String
    → String
    → List Transaction
    → List BrokerRawMeg × List Transaction
    → Type 0
Split fetch brokers address txs (megs, itxs) =
    (megs ≡ map (raw_of address) (filterb (crosses fetch brokers) txs))
    × (itxs ≡ map (marked brokers) (filterb (λ tx. not (crosses fetch brokers tx)) txs))

deal_loop-Split :
    (fetch : String → Option ℕ) (address : String) (others : List String) (txs : List Transaction)
    → All (AreFound fetch) txs
    → Gives (Split fetch (address ∷ others) address txs) (deal_loop fetch (address ∷ others) txs)
unfolding deal_loop
deal_loop-Split fetch address others [] found = (refl, refl)
deal_loop-Split fetch address others (tx ∷ txs) ((to, from), found) =
    let same_test = needs_broker-crosses fetch (address ∷ others) tx in
    elim (Bool-cases (crosses fetch (address ∷ others) tx)) [
      | inl t ↦
          rw (to, from, same_test ∙ t, deal_loop)
            (Gives-bind (Split fetch (address ∷ others) address txs) _
              (deal_loop fetch (address ∷ others) txs) _
              (deal_loop-Split fetch address others txs found)
              (λ (megs, itxs) (same, rest). (rw t (ap (◌∷◌ (raw_of address tx)) same), rw t rest)))
      | inr f ↦
          rw (to, from, same_test ∙ f, deal_loop)
            (Gives-bind (Split fetch (address ∷ others) address txs) _
              (deal_loop fetch (address ∷ others) txs) _
              (deal_loop-Split fetch address others txs found)
              (λ (megs, itxs) (same, rest). (
                rw f same,
                rw f (ap₂ (λ x l. x ∷ l) (mark_broker-marked (address ∷ others) tx) rest),
              )))
    ]

module _ (lib : BrokerLibrary) where
  -- The first half: from the sender to the broker, with the raw transaction's value, nonce and hash.
  abbrev pub first_half_of : BrokerType1Meg → Transaction
  first_half_of meg = record {
    sender = meg.raw_meg.tx.sender;
    recipient = meg.broker;
    nonce = meg.raw_meg.tx.nonce;
    signature = [];
    value = meg.raw_meg.tx.value;
    tx_hash = (tx1_of lib meg).tx_hash;
    time = lib.clock1 meg.raw_meg.tx;
    relayed = false;
    has_broker = false;
    sender_is_broker = false;
    original_sender = meg.raw_meg.tx.sender;
    final_recipient = meg.raw_meg.tx.recipient;
    raw_tx_hash = meg.raw_meg.tx.tx_hash;
  }

module _ (lib : BrokerLibrary) (fetch : String → Option ℕ) (sid : ℕ) where
  -- A first half for each transaction that needs a broker.
  abbrev pub first_halves : String → BrokerCommittee → List Transaction → List Transaction
  first_halves address bcm txs =
      map (first_half_of lib) (
        map first_meg
          (map (raw_of address) (filterb (crosses fetch bcm.broker.broker_address) txs)))

  abbrev pub Dealt :
      String
      → BrokerCommittee
      → List Transaction
      → List Transaction × List InjectTxs × BrokerCommittee
      → Type 0
  Dealt address bcm txs (itxs, msgs, bcm') =
      (itxs
        ≡ map (marked bcm.broker.broker_address)
            (filterb (λ tx. not (crosses fetch bcm.broker.broker_address tx)) txs))
      × CarriesPaired lib fetch sid bcm (first_halves address bcm txs) (msgs, bcm')

module _ (lib : BrokerLibrary) (fetch : String → Option ℕ) (shard_num inject_speed sid : ℕ)
    (fast : 0 < inject_speed) (small : sid < shard_num) where
  first_halves-IsKnown :
      (raw_megs : Map Bytes BrokerRawMeg) (megs : List BrokerRawMeg)
      → All (IsKnown lib raw_megs) megs
      → All (λ meg. IsKnown lib raw_megs meg.raw_meg) (map (first_meg) megs)
  first_halves-IsKnown raw_megs [] known = tt
  first_halves-IsKnown raw_megs (meg ∷ megs) (here, known) =
      (here, first_halves-IsKnown raw_megs megs known)

  handle_broker_raw_mag-CarriesPaired :
      (megs : List BrokerRawMeg) (bcm : BrokerCommittee)
      → All (IsRoutable fetch bcm.broker.broker_address) (map (tx1_of lib) (map first_meg megs))
      → IsPaired lib bcm
      → Gives
          (CarriesPaired lib fetch sid bcm (map (tx1_of lib) (map (first_meg) megs)))
          (handle_broker_raw_mag lib fetch shard_num inject_speed megs bcm)
  unfolding handle_broker_raw_mag handle_broker_type1_mes
  handle_broker_raw_mag-CarriesPaired megs bcm routable paired =
      let (same, known, stays) = raw_loop-map lib megs bcm.broker.broker_raw_megs in
      let raws = (raw_loop lib megs bcm.broker.broker_raw_megs).1 in
      let type1s = (raw_loop lib megs bcm.broker.broker_raw_megs).0 in
      let (same', filed) =
        type1_loop-map lib raws type1s bcm.broker_confirm1_pool
          (subst (λ t. All (λ meg. IsKnown lib raws meg.raw_meg) t) (sym same)
            (first_halves-IsKnown raws megs known))
          (All-map (Filed lib bcm.broker.broker_raw_megs) (Filed lib raws)
            (λ (h, c) (filed, known'). (filed, stays (lib.digest c.raw_meg) known'))
            bcm.broker_confirm1_pool paired.confirm1) in
      Gives-bind _ (CarriesPaired lib fetch sid bcm (map (tx1_of lib) (map (first_meg) megs)))
        (broker_tx_sending fetch shard_num inject_speed
          ((type1_loop lib type1s bcm.broker_confirm1_pool).0) bcm)
        _
        (broker_tx_sending-Carries lib fetch shard_num inject_speed sid fast small
          ((type1_loop lib type1s bcm.broker_confirm1_pool).0) bcm
          (subst (λ txs. All (IsRoutable fetch bcm.broker.broker_address) txs)
            (sym (same' ∙ ap (map (tx1_of lib)) same)) routable))
        (λ msgs carries. (
          subst (λ txs. Carries lib fetch sid bcm txs msgs) (same' ∙ ap (map (tx1_of lib)) same)
              carries,
          record { confirm1 = filed; confirm2 = paired.confirm2 },
          refl,
        ))

  -- For a committee with a broker, whose waiting confirms are filed under their hashes with their raw
  -- messages kept, and a positive injection speed, where the program finds the shards of the senders and
  -- recipients and those that it looks up for the first halves: dealTxByBroker does not panic. It gives
  -- back in order the transactions within one shard and those that a broker sends or receives, the latter
  -- marked so. For each other one it sends a first half from the sender to the broker, to the sender's
  -- shard unless a broker sends, in order; the confirms stay filed so and the brokers the same.
  pub deal_tx_by_broker-Dealt :
      (address : String) (others : List String) (txs : List Transaction) (bcm : BrokerCommittee)
      → bcm.broker.broker_address ≡ address ∷ others
      → IsPaired lib bcm
      → All (AreFound fetch) txs
      → All
          (IsRoutable fetch bcm.broker.broker_address)
          (first_halves lib fetch sid address bcm txs)
      → Gives
          (Dealt lib fetch sid address bcm txs)
          (deal_tx_by_broker lib fetch shard_num inject_speed txs bcm)
  unfolding deal_tx_by_broker sent_to tx1_of
  deal_tx_by_broker-Dealt address others txs bcm has paired found routable =
      Gives-bind (Split fetch (bcm.broker.broker_address) address txs)
        (Dealt lib fetch sid address bcm txs) (deal_loop fetch bcm.broker.broker_address txs) _
        (subst (λ l. Gives (Split fetch l address txs) (deal_loop fetch l txs)) (sym has)
          (deal_loop-Split fetch address others txs found))
        (λ (megs, itxs) (same, rest).
          Gives-bind (CarriesPaired lib fetch sid bcm (map (tx1_of lib) (map first_meg megs)))
            (Dealt lib fetch sid address bcm txs) _ _
            (Gives-if (CarriesPaired lib fetch sid bcm (map (tx1_of lib) (map first_meg megs)))
              (nat_beq (length megs) 0) _ _ (λ h. (nothing megs h, paired, refl))
              (λ _.
                handle_broker_raw_mag-CarriesPaired megs bcm
                  (subst
                    (λ m.
                      All (IsRoutable fetch bcm.broker.broker_address)
                        (map (tx1_of lib) (map first_meg m)))
                    (sym same) routable)
                  paired))
            (λ (msgs, bcm') (carries, paired', kept). (
              rest,
              (
                subst (λ m. Carries lib fetch sid bcm (map (tx1_of lib) (map first_meg m)) msgs)
                    same carries,
                paired',
                kept,
              ),
            )))
    where
      nothing :
          (megs : List BrokerRawMeg)
          → nat_beq (length megs) 0 ≡ true
          → Carries lib fetch sid bcm (map (tx1_of lib) (map first_meg megs)) []
      nothing [] h = refl
      nothing (meg ∷ megs) h = absurd (ground arith)
