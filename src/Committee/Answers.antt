-- ===== src/Committee/Answers.antt =====
-- Both halves of a broker transaction: what the committee's handlers send.
pub mod Deals
pub mod Lifecycle
use blbchain.Base.{
  ℕ, zero, suc, ◌+◌, ◌<◌, ◌≡◌, refl, sym, ap, ap₂, ◌∙◌, subst, String, string_eq, Comparable, Bool,
  true, false, not, ◌&&◌, ◌||◌, ◌==◌, beq_refl, Option, none, some, ◌>>=◌, List, [], ◌∷◌, ◌++◌, map,
  Bytes, bytes_eq, Map, lookup, insert, lookup-insert_self, lookup-insert_ne, or_zero, is_some,
  all_true-All, nat_beq, if◌then◌else◌, get_elem?, length, filterb, All, All-map, Bool-cases, inl,
  inr, Gives, Gives-bind, Gives-map, Gives-if, arith,
}
use blbchain.Core.Transaction.{Transaction}
use blbchain.Committee.{InjectTxs, tx_sending}
use blbchain.Committee.Sending.{sent_to, tx_sending-filterb}
use blbchain.Committee.Broker.{
  BrokerRawMeg, BrokerType1Meg, BrokerType2Meg, Mag1Confirm, Mag2Confirm, Broker, BrokerCommittee,
  BrokerLibrary, BrokerBlockInfo, is_broker, mark_broker, needs_broker, broker_route, deal_loop,
  tx1_of, type1_loop, tx2_of, type2_loop, raw_loop, tx1_confirm_loop, handle_tx2_confirm_mag,
  confirms_of, append_hash, broker_tx_sending, handle_broker_type1_mes, handle_broker_type2_mes,
  handle_broker_raw_mag, deal_tx_by_broker, handle_tx1_confirm_mag, create_confirm,
  broker_handle_block_info,
}

-- The shard to which a transaction is sent: its recipient's if a broker sends it, or else its sender's.
abbrev pub shard_for : (String → Option ℕ) → List String → Transaction → ℕ
shard_for fetch brokers tx =
    or_zero (if is_broker tx.sender brokers then fetch tx.recipient else fetch tx.sender) 0

-- The program finds a shard for the sender, and for the recipient where a broker sends.
abbrev pub IsRoutable : (String → Option ℕ) → List String → Transaction → Type 0
IsRoutable fetch brokers tx = is_some (broker_route fetch brokers tx) ≡ true

routed-shard_for :
    (fetch : String → Option ℕ) (brokers : List String) (sid : ℕ) (txs : List Transaction)
    → All (IsRoutable fetch brokers) txs
    → filterb (λ tx. nat_beq (or_zero (broker_route fetch brokers tx) 0) sid) txs
      ≡ filterb (λ tx. nat_beq (shard_for fetch brokers tx) sid) txs
unfolding broker_route
routed-shard_for fetch brokers sid [] routable = refl
routed-shard_for fetch brokers sid (tx ∷ txs) (first, rest) =
    rw
      (
        same (fetch tx.sender) (is_broker tx.sender brokers) first,
        routed-shard_for fetch brokers sid txs rest,
      )
      refl
  where
    same :
        (o : Option ℕ) (b : Bool)
        → is_some (o >>= λ shard. if b then fetch tx.recipient else some shard) ≡ true
        → or_zero (o >>= λ shard. if b then fetch tx.recipient else some shard) 0
          ≡ or_zero (if b then fetch tx.recipient else o) 0
    same none b h = absurd (false≢true h)
      where
        false≢true : ¬ (false ≡ true)
        false≢true e = cc
    same (some shard) true h = refl
    same (some shard) false h = refl

module _ {K V : Type 0} ⦃e : Comparable K⦄ where
  All-insert_entry :
      (P : K × V → Type 0) (key : K) (new : V) (m : Map K V)
      → P (key, new)
      → All P m
      → All P (insert key new m)
  unfolding insert
  All-insert_entry P key new [] here all = (here, tt)
  All-insert_entry P key new ((other, old) ∷ m) here (first, rest) =
      elim (Bool-cases (other == key)) [
        | inl t ↦ rw t (subst (λ k. P (k, new)) (sym ((e.equals_iff other key).0 t)) here, rest)
        | inr f ↦ rw f (first, All-insert_entry P key new m here rest)
      ]

  lookup-insert_known :
      (key j : K) (new : V) (m : Map K V)
      → is_some (lookup j m) ≡ true
      → is_some (lookup j (insert key new m)) ≡ true
  lookup-insert_known key j new m known = elim (Bool-cases (key == j)) [
    | inl t ↦
        subst (λ k. is_some (lookup k (insert key new m)) ≡ true) ((e.equals_iff key j).0 t)
          (rw (lookup-insert_self key new m) refl)
    | inr f ↦ rw (lookup-insert_ne key j new m f) known
  ]

abbrev pub first_meg : BrokerRawMeg → BrokerType1Meg
first_meg meg = record { raw_meg = meg; broker = meg.broker }

abbrev pub second_meg : String → Mag1Confirm → BrokerType2Meg
second_meg address c = record { raw_meg = c.raw_meg; broker = address }

-- The confirm of a pool whose own hash is this one.
abbrev pub confirm_with : Bytes → Map Bytes Mag1Confirm → List Mag1Confirm
confirm_with h [] = []
confirm_with h ((k, c) ∷ pool) = if c.tx1_hash == h then c ∷ [] else confirm_with h pool

-- For each transaction the confirm that waits with its hash, if there is one.
abbrev pub waiting_for : Map Bytes Mag1Confirm → List Transaction → List Mag1Confirm
waiting_for pool [] = []
waiting_for pool (tx ∷ txs) = confirm_with tx.tx_hash pool ++ waiting_for pool txs

confirms_of-waiting_for :
    (pool : Map Bytes Mag1Confirm) (txs : List Transaction)
    → All (λ (h, c). c.tx1_hash ≡ h) pool
    → confirms_of pool txs ≡ waiting_for pool txs
unfolding confirms_of
confirms_of-waiting_for pool [] filed = refl
confirms_of-waiting_for pool (tx ∷ txs) filed =
    split (lookup tx.tx_hash pool)
    ∙ ap₂ (λ x y. x ++ y) (found pool filed) (confirms_of-waiting_for pool txs filed)
  where
    listed : Option Mag1Confirm → List Mag1Confirm
    listed none = []
    listed (some c) = c ∷ []

    split :
        (o : Option Mag1Confirm)
        → (elim o [ none ↦ confirms_of pool txs | some c ↦ c ∷ confirms_of pool txs ])
          ≡ listed o ++ confirms_of pool txs
    split none = refl
    split (some c) = refl

    found :
        (pool : Map Bytes Mag1Confirm)
        → All (λ (h, c). c.tx1_hash ≡ h) pool
        → listed (lookup tx.tx_hash pool) ≡ confirm_with tx.tx_hash pool
    found [] filed = refl
    found ((h, c) ∷ pool) (same, rest) = elim (Bool-cases (h == tx.tx_hash)) [
      | inl t ↦ rw (same, t) refl
      | inr f ↦ rw (same, f) (found pool rest)
    ]

module _ (lib : BrokerLibrary) where
  abbrev IsKnown : Map Bytes BrokerRawMeg → BrokerRawMeg → Type 0
  IsKnown megs meg = is_some (lookup (lib.digest meg) megs) ≡ true

  -- A confirm that waits is filed under its transaction's hash, and its raw message is kept.
  pub record IsPaired (bcm : BrokerCommittee) : Type 0 where
    pub confirm1 :
        All
          (λ (h, c). (c.tx1_hash ≡ h) × IsKnown bcm.broker.broker_raw_megs c.raw_meg)
          bcm.broker_confirm1_pool
    pub confirm2 : All (λ (h, c). c.tx2_hash ≡ h) bcm.broker_confirm2_pool

  abbrev Filed : Map Bytes BrokerRawMeg → Bytes × Mag1Confirm → Type 0
  Filed megs (h, c) = (c.tx1_hash ≡ h) × IsKnown megs c.raw_meg

  abbrev KnownIf : Map Bytes BrokerRawMeg → Option Mag1Confirm → Type 0
  KnownIf megs none = Unit
  KnownIf megs (some c) = IsKnown megs c.raw_meg

  confirms_of-IsKnown :
      (megs : Map Bytes BrokerRawMeg) (pool : Map Bytes Mag1Confirm) (txs : List Transaction)
      → All (Filed megs) pool
      → All (λ c. IsKnown megs c.raw_meg) (confirms_of pool txs)
  unfolding confirms_of
  confirms_of-IsKnown megs pool [] filed = tt
  confirms_of-IsKnown megs pool (tx ∷ txs) filed =
      at (lookup tx.tx_hash pool) (found pool filed) (confirms_of-IsKnown megs pool txs filed)
    where
      found :
          (pool : Map Bytes Mag1Confirm)
          → All (Filed megs) pool
          → KnownIf megs (lookup tx.tx_hash pool)
      found [] filed = tt
      found ((h, c) ∷ pool) (first, rest) = elim (Bool-cases (h == tx.tx_hash)) [
        | inl t ↦ rw t (first.1)
        | inr f ↦ rw f (found pool rest)
      ]

      at :
          (o : Option Mag1Confirm)
          → KnownIf megs o
          → All (λ c. IsKnown megs c.raw_meg) (confirms_of pool txs)
          → All
              (λ c. IsKnown megs c.raw_meg)
              (elim o [ none ↦ confirms_of pool txs | some c ↦ c ∷ confirms_of pool txs ])
      at none known others = others
      at (some c) known others = (known, others)

  type2_loop-map :
      (megs : List BrokerType2Meg) (pool : Map Bytes Mag2Confirm)
      → All (λ (h, c). c.tx2_hash ≡ h) pool
      → ((type2_loop lib megs pool).0 ≡ map (tx2_of lib) megs)
        × All (λ (h, c). c.tx2_hash ≡ h) ((type2_loop lib megs pool).1)
  unfolding type2_loop
  type2_loop-map [] pool filed = (refl, filed)
  type2_loop-map (meg ∷ megs) pool filed =
      let tx2 = tx2_of lib meg in
      let confirm : Mag2Confirm = record { tx2_hash = tx2.tx_hash; raw_meg = meg.raw_meg } in
      let rest =
        type2_loop-map megs (insert tx2.tx_hash confirm pool)
          (All-insert_entry (λ (h, c). c.tx2_hash ≡ h) tx2.tx_hash confirm pool refl filed) in
      (ap (◌∷◌ tx2) rest.0, rest.1)

  type1_loop-map :
      (raw_megs : Map Bytes BrokerRawMeg) (megs : List BrokerType1Meg)
      (pool : Map Bytes Mag1Confirm)
      → All (λ meg. IsKnown raw_megs meg.raw_meg) megs
      → All (Filed raw_megs) pool
      → ((type1_loop lib megs pool).0 ≡ map (tx1_of lib) megs)
        × All (Filed raw_megs) ((type1_loop lib megs pool).1)
  unfolding type1_loop
  type1_loop-map raw_megs [] pool known filed = (refl, filed)
  type1_loop-map raw_megs (meg ∷ megs) pool (here, known) filed =
      let tx1 = tx1_of lib meg in
      let confirm : Mag1Confirm = record { tx1_hash = tx1.tx_hash; raw_meg = meg.raw_meg } in
      let rest =
        type1_loop-map raw_megs megs (insert tx1.tx_hash confirm pool) known
          (All-insert_entry (Filed raw_megs) tx1.tx_hash confirm pool (refl, here) filed) in
      (ap (◌∷◌ tx1) rest.0, rest.1)

  raw_loop-map :
      (megs : List BrokerRawMeg) (raw_megs : Map Bytes BrokerRawMeg)
      → ((raw_loop lib megs raw_megs).0 ≡ map first_meg megs)
        × All (λ meg. IsKnown ((raw_loop lib megs raw_megs).1) meg) megs
        × ((k : Bytes)
            → is_some (lookup k raw_megs) ≡ true
            → is_some (lookup k ((raw_loop lib megs raw_megs).1)) ≡ true)
  unfolding raw_loop
  raw_loop-map [] raw_megs = (refl, tt, λ k h. h)
  raw_loop-map (meg ∷ megs) raw_megs =
      let key = lib.digest meg in
      let (same, known, stays) = raw_loop-map megs (insert key meg raw_megs) in
      (
        ap (◌∷◌ (first_meg meg)) same,
        (stays key (ap is_some (lookup-insert_self key meg raw_megs)), known),
        λ k h. stays k (lookup-insert_known key k meg raw_megs h),
      )

  -- Every confirm is answered, and the messages and addresses stay.
  abbrev Answered : String → List Mag1Confirm → Broker → List BrokerType2Meg × Broker → Type 0
  Answered address cs b (type2s, b') =
      (type2s ≡ map (second_meg address) cs)
      × (b'.broker_raw_megs ≡ b.broker_raw_megs)
      × (b'.broker_address ≡ b.broker_address)

  tx1_confirm_loop-Answered :
      (address : String) (others : List String) (cs : List Mag1Confirm) (b : Broker)
      → b.broker_address ≡ address ∷ others
      → All (λ c. IsKnown b.broker_raw_megs c.raw_meg) cs
      → Gives (Answered address cs b) (tx1_confirm_loop lib cs b)
  unfolding tx1_confirm_loop
  tx1_confirm_loop-Answered address others [] b has known = (refl, refl, refl)
  tx1_confirm_loop-Answered address others (c ∷ cs) b has (here, known) =
      let b' = record b {
        raw_tx2broker_tx = append_hash lib c.raw_meg.tx.tx_hash c.tx1_hash b.raw_tx2broker_tx;
      } in
      rw (here, tx1_confirm_loop)
        (Gives-bind (λ a. a ≡ address) (Answered address (c ∷ cs) b) (get_elem? b.broker_address 0)
          _ (subst (λ l. Gives (λ a. a ≡ address) (get_elem? l 0)) (sym has) refl)
          (λ a is.
            Gives-bind (Answered address cs b') (Answered address (c ∷ cs) b)
              (tx1_confirm_loop lib cs b') _
              (tx1_confirm_loop-Answered address others cs b' has known)
              (λ (type2s, b'') (same, megs, addresses).
                (ap₂ (λ x rest. second_meg x c ∷ rest) is same, megs, addresses))))

  handle_tx2_confirm_mag-IsPaired :
      (cs : List Mag2Confirm) (bcm : BrokerCommittee)
      → IsPaired bcm
      → IsPaired (handle_tx2_confirm_mag lib cs bcm)
  unfolding handle_tx2_confirm_mag
  handle_tx2_confirm_mag-IsPaired [] bcm paired = paired
  handle_tx2_confirm_mag-IsPaired (c ∷ cs) bcm paired =
      handle_tx2_confirm_mag-IsPaired cs _
        (record { confirm1 = paired.confirm1; confirm2 = paired.confirm2 })

  handle_tx2_confirm_mag-address :
      (cs : List Mag2Confirm) (bcm : BrokerCommittee)
      → (handle_tx2_confirm_mag lib cs bcm).broker.broker_address ≡ bcm.broker.broker_address
  unfolding handle_tx2_confirm_mag
  handle_tx2_confirm_mag-address [] bcm = refl
  handle_tx2_confirm_mag-address (c ∷ cs) bcm = handle_tx2_confirm_mag-address cs _

  -- The second half: from the broker to the recipient, with the raw transaction's value, nonce and hash.
  abbrev pub second_half_of : BrokerType2Meg → Transaction
  second_half_of meg = record {
    sender = meg.broker;
    recipient = meg.raw_meg.tx.recipient;
    nonce = meg.raw_meg.tx.nonce;
    signature = [];
    value = meg.raw_meg.tx.value;
    tx_hash = (tx2_of lib meg).tx_hash;
    time = lib.clock2 meg.raw_meg.tx;
    relayed = false;
    has_broker = false;
    sender_is_broker = false;
    original_sender = meg.raw_meg.tx.sender;
    final_recipient = meg.raw_meg.tx.recipient;
    raw_tx_hash = meg.raw_meg.tx.tx_hash;
  }

  -- What a report is answered with.
  abbrev pub answers : String → BrokerCommittee → List Transaction → List Transaction
  answers address bcm txs =
      map second_half_of (map (second_meg address) (waiting_for bcm.broker_confirm1_pool txs))

  module _ (fetch : String → Option ℕ) (sid : ℕ) where
    -- The messages to the shard carry those of the transactions that it gets.
    abbrev Carries : BrokerCommittee → List Transaction → List InjectTxs → Type 0
    Carries bcm txs msgs =
        sent_to sid msgs
        ≡ filterb (λ tx. nat_beq (shard_for fetch bcm.broker.broker_address tx) sid) txs

    abbrev pub CarriesPaired :
        BrokerCommittee → List Transaction → List InjectTxs × BrokerCommittee → Type 0
    CarriesPaired bcm txs (msgs, bcm') =
        Carries bcm txs msgs
        × IsPaired bcm'
        × (bcm'.broker.broker_address ≡ bcm.broker.broker_address)

  module _ (fetch : String → Option ℕ) (shard_num inject_speed sid : ℕ) (fast : 0 < inject_speed)
      (small : sid < shard_num) where
    broker_tx_sending-Carries :
        (txs : List Transaction) (bcm : BrokerCommittee)
        → All (IsRoutable fetch bcm.broker.broker_address) txs
        → Gives (Carries fetch sid bcm txs) (broker_tx_sending fetch shard_num inject_speed txs bcm)
    unfolding broker_tx_sending
    broker_tx_sending-Carries txs bcm routable =
        let route = broker_route fetch bcm.broker.broker_address in
        rw (all_true-All (λ tx. is_some (route tx)) txs routable) (
          Gives-map
            (λ msgs. sent_to sid msgs ≡ filterb (λ tx. nat_beq (or_zero (route tx) 0) sid) txs)
            (Carries fetch sid bcm txs) _
            (tx_sending-filterb shard_num inject_speed (λ tx. or_zero (route tx) 0) sid txs fast
              small)
            (λ msgs same. same ∙ routed-shard_for fetch bcm.broker.broker_address sid txs routable))

    handle_broker_type2_mes-CarriesPaired :
        (megs : List BrokerType2Meg) (bcm : BrokerCommittee)
        → All (IsRoutable fetch bcm.broker.broker_address) (map (tx2_of lib) megs)
        → IsPaired bcm
        → Gives
            (CarriesPaired fetch sid bcm (map (tx2_of lib) megs))
            (handle_broker_type2_mes lib fetch shard_num inject_speed megs bcm)
    unfolding handle_broker_type2_mes
    handle_broker_type2_mes-CarriesPaired megs bcm routable paired =
        let (same, filed) = type2_loop-map megs bcm.broker_confirm2_pool paired.confirm2 in
        Gives-bind _ (CarriesPaired fetch sid bcm (map (tx2_of lib) megs))
          (broker_tx_sending fetch shard_num inject_speed
            ((type2_loop lib megs bcm.broker_confirm2_pool).0) bcm)
          _
          (broker_tx_sending-Carries ((type2_loop lib megs bcm.broker_confirm2_pool).0) bcm (
            subst (λ txs. All (IsRoutable fetch bcm.broker.broker_address) txs) (sym same)
              routable))
          (λ msgs carries. (
            subst (λ txs. Carries fetch sid bcm txs msgs) same carries,
            record { confirm1 = paired.confirm1; confirm2 = filed },
            refl,
          ))

    handle_tx1_confirm_mag-CarriesPaired :
        (address : String) (others : List String) (cs : List Mag1Confirm) (bcm : BrokerCommittee)
        → bcm.broker.broker_address ≡ address ∷ others
        → IsPaired bcm
        → All (λ c. IsKnown bcm.broker.broker_raw_megs c.raw_meg) cs
        → All
            (IsRoutable fetch bcm.broker.broker_address)
            (map (tx2_of lib) (map (second_meg address) cs))
        → Gives
            (CarriesPaired fetch sid bcm (map (tx2_of lib) (map (second_meg address) cs)))
            (handle_tx1_confirm_mag lib fetch shard_num inject_speed cs bcm)
    unfolding handle_tx1_confirm_mag
    handle_tx1_confirm_mag-CarriesPaired address others cs bcm has paired known routable =
        Gives-bind (Answered address cs (bcm.broker))
          (CarriesPaired fetch sid bcm (map (tx2_of lib) (map (second_meg address) cs)))
          (tx1_confirm_loop lib cs (bcm.broker)) _
          (tx1_confirm_loop-Answered address others cs (bcm.broker) has known)
          (λ (type2s, b) (same, megs, addresses).
            Gives-map
              (CarriesPaired fetch sid (record bcm { broker = b }) (map (tx2_of lib) type2s)) _ _
              (handle_broker_type2_mes-CarriesPaired type2s (record bcm { broker = b })
                (subst (λ l. All (IsRoutable fetch l) (map (tx2_of lib) type2s)) (sym addresses)
                  (subst
                    (λ t. All (IsRoutable fetch bcm.broker.broker_address) (map (tx2_of lib) t))
                    (sym same) routable))
                (record {
                  confirm1 =
                      subst (λ kept. All (Filed kept) bcm.broker_confirm1_pool) (sym megs)
                        paired.confirm1;
                  confirm2 = paired.confirm2;
                }))
              (λ (msgs, bcm') (carries, paired', kept). (
                subst
                    (λ l.
                      sent_to sid msgs
                      ≡ filterb (λ tx. nat_beq (shard_for fetch l tx) sid)
                          (map (tx2_of lib) (map (second_meg address) cs)))
                    addresses
                    (subst
                      (λ t. Carries fetch sid (record bcm { broker = b }) (map (tx2_of lib) t) msgs)
                      same carries),
                paired',
                kept ∙ addresses,
              )))

    create_confirm-confirms_of :
        (address : String) (others : List String) (txs : List Transaction) (bcm : BrokerCommittee)
        → bcm.broker.broker_address ≡ address ∷ others
        → IsPaired bcm
        → All
            (IsRoutable fetch bcm.broker.broker_address)
            (map (tx2_of lib) (map (second_meg address) (confirms_of bcm.broker_confirm1_pool txs)))
        → Gives
            (CarriesPaired fetch sid bcm (
              map
                (tx2_of lib)
                (map (second_meg address) (confirms_of bcm.broker_confirm1_pool txs))))
            (create_confirm lib fetch shard_num inject_speed txs bcm)
    unfolding create_confirm sent_to
    create_confirm-confirms_of address others txs bcm has paired routable =
        Gives-bind
          (CarriesPaired fetch sid bcm (
            map (tx2_of lib) (map (second_meg address) (confirms_of bcm.broker_confirm1_pool txs))))
          (CarriesPaired fetch sid bcm (
            map (tx2_of lib) (map (second_meg address) (confirms_of bcm.broker_confirm1_pool txs))))
          _ _
          (Gives-if
            (CarriesPaired fetch sid bcm (
              map (tx2_of lib)
                (map (second_meg address) (confirms_of bcm.broker_confirm1_pool txs))))
            (nat_beq (length (confirms_of bcm.broker_confirm1_pool txs)) 0) _ _
            (λ h. (nothing (confirms_of bcm.broker_confirm1_pool txs) h, paired, refl))
            (λ _.
              handle_tx1_confirm_mag-CarriesPaired address others
                (confirms_of bcm.broker_confirm1_pool txs) bcm has paired
                (confirms_of-IsKnown bcm.broker.broker_raw_megs bcm.broker_confirm1_pool txs
                  paired.confirm1)
                routable))
          (λ (msgs, bcm') (carries, paired', kept).
            let done =
              second (nat_beq (length (confirms_of bcm.broker_confirm2_pool txs)) 0) bcm' paired' in
            (carries, done.0, done.1 ∙ kept))
      where
        nothing :
            (cs : List Mag1Confirm)
            → nat_beq (length cs) 0 ≡ true
            → Carries fetch sid bcm (map (tx2_of lib) (map (second_meg address) cs)) []
        nothing [] h = refl
        nothing (c ∷ cs) h = absurd (ground arith)

        second :
            (b : Bool) (bcm' : BrokerCommittee)
            → IsPaired bcm'
            → let done =
                (if b
                  then bcm'
                  else handle_tx2_confirm_mag lib
                      (confirms_of bcm.broker_confirm2_pool txs)
                      bcm') in
              IsPaired done × (done.broker.broker_address ≡ bcm'.broker.broker_address)
        second true bcm' p = (p, refl)
        second false bcm' p = (
          handle_tx2_confirm_mag-IsPaired (confirms_of bcm.broker_confirm2_pool txs) bcm' p,
          handle_tx2_confirm_mag-address (confirms_of bcm.broker_confirm2_pool txs) bcm',
        )

    -- For a committee with a broker, whose waiting confirms are filed under their hashes with their raw
    -- messages kept, and a positive injection speed, where the program finds the shards that it looks up
    -- for the second halves: createConfirm does not panic. A shard that exists is sent exactly the second
    -- halves for the reported transactions whose hash is that of a waiting first confirm, from the broker
    -- to the recipient with the raw transaction's value, those whose recipient lives there if a broker
    -- sends, and else whose sender does, in order. The confirms stay filed so, and the brokers the same.
    pub create_confirm-answers :
        (address : String) (others : List String) (txs : List Transaction) (bcm : BrokerCommittee)
        → bcm.broker.broker_address ≡ address ∷ others
        → IsPaired bcm
        → All (IsRoutable fetch bcm.broker.broker_address) (answers address bcm txs)
        → Gives
            (CarriesPaired fetch sid bcm (answers address bcm txs))
            (create_confirm lib fetch shard_num inject_speed txs bcm)
    unfolding tx2_of
    create_confirm-answers address others txs bcm has paired routable =
        let same =
          ap (λ cs. map (tx2_of lib) (map (second_meg address) cs))
            (confirms_of-waiting_for bcm.broker_confirm1_pool txs (
              All-map (Filed bcm.broker.broker_raw_megs) (λ (h, c). c.tx1_hash ≡ h)
                (λ e filed. filed.0) bcm.broker_confirm1_pool paired.confirm1)) in
        subst
          (λ l.
            Gives (CarriesPaired fetch sid bcm l)
              (create_confirm lib fetch shard_num inject_speed txs bcm))
          same
          (create_confirm-confirms_of address others txs bcm has paired
            (subst (λ l. All (IsRoutable fetch bcm.broker.broker_address) l) (sym same) routable))
