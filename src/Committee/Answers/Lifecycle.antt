-- ===== src/Committee/Answers/Lifecycle.antt =====
-- One broker transaction from its deal to the confirm of its second half.
use blbchain.Base.{
  ℕ, ◌<◌, ◌≡◌, refl, sym, ap, ◌∙◌, subst, String, true, false, Option, none, some, ◌>>=◌, List, [],
  ◌∷◌, ◌++◌, append_assoc, Bytes, bytes_eq, ◌==◌, Map, lookup, insert, lookup-insert_self,
  lookup-insert_ne, or_zero, is_some, get_elem?, Gives, Gives-bind, Gives-map,
}
use blbchain.Core.Transaction.{Transaction}
use blbchain.Committee.Sending.{tx_sending-filterb}
use blbchain.Committee.Broker.{
  Broker, BrokerCommittee, BrokerLibrary, needs_broker, broker_route, deal_loop, tx1_of, type1_loop,
  tx2_of, type2_loop, raw_loop, append_hash, tx1_confirm_loop, handle_tx2_confirm_mag, confirms_of,
  broker_tx_sending, handle_broker_type1_mes, handle_broker_type2_mes, handle_broker_raw_mag,
  deal_tx_by_broker, handle_tx1_confirm_mag, create_confirm,
}
use blbchain.Committee.Answers.{IsRoutable}
use blbchain.Committee.Answers.Deals.{raw_of, AreFound}

confirms_of-some :
    {C : Type 0} (pool : Map Bytes C) (tx : Transaction) (c : C)
    → lookup tx.tx_hash pool ≡ some c
    → confirms_of pool (tx ∷ []) ≡ c ∷ []
unfolding confirms_of
confirms_of-some pool tx c e = rw (e, confirms_of) refl

confirms_of-none :
    {C : Type 0} (pool : Map Bytes C) (tx : Transaction)
    → lookup tx.tx_hash pool ≡ none
    → confirms_of pool (tx ∷ []) ≡ []
unfolding confirms_of
confirms_of-none pool tx e = rw (e, confirms_of) refl

module _ (lib : BrokerLibrary) where
  abbrev pub first_hash : String → Transaction → Bytes
  first_hash address tx =
      (tx1_of lib (record { raw_meg = raw_of address tx; broker = address })).tx_hash

  abbrev pub second_hash : String → Transaction → Bytes
  second_hash address tx =
      (tx2_of lib (record { raw_meg = raw_of address tx; broker = address })).tx_hash

module _ (lib : BrokerLibrary) (fetch : String → Option ℕ) (shard_num inject_speed : ℕ) where
  -- The deal of a transaction, then the reports of blocks with its first and its second half.
  abbrev pub lifecycle : String → Transaction → BrokerCommittee → Option BrokerCommittee
  lifecycle address tx bcm = do
    (itxs, sent1, bcm1) ← deal_tx_by_broker lib fetch shard_num inject_speed (tx ∷ []) bcm
    (sent2, bcm2) ←
        create_confirm lib fetch shard_num inject_speed
          (tx1_of lib (record { raw_meg = raw_of address tx; broker = address }) ∷ []) bcm1
    (sent3, bcm3) ←
        create_confirm lib fetch shard_num inject_speed
          (tx2_of lib (record { raw_meg = raw_of address tx; broker = address }) ∷ []) bcm2
    some bcm3

  module _ (fast : 0 < inject_speed) (some_shards : 0 < shard_num) where
    sends :
        (tx : Transaction) (bcm : BrokerCommittee)
        → IsRoutable fetch bcm.broker.broker_address tx
        → Gives (λ msgs. Unit) (broker_tx_sending fetch shard_num inject_speed (tx ∷ []) bcm)
    unfolding broker_tx_sending
    sends tx bcm routable =
        let route = broker_route fetch bcm.broker.broker_address in
        rw routable (
          Gives-map _ (λ msgs. Unit) _
            (tx_sending-filterb shard_num inject_speed (λ x. or_zero (route x) 0) 0 (tx ∷ []) fast
              some_shards)
            (λ msgs e. tt))

    module _ (address : String) (others : List String) (tx : Transaction) where
      abbrev dealt : BrokerCommittee → BrokerCommittee
      dealt bcm = record bcm {
        broker = record (bcm.broker) {
          broker_raw_megs =
              insert (lib.digest (raw_of address tx)) (raw_of address tx)
                bcm.broker.broker_raw_megs;
        };
        broker_confirm1_pool =
            insert (first_hash lib address tx)
              (record { tx1_hash = (first_hash lib address tx); raw_meg = raw_of address tx })
              bcm.broker_confirm1_pool;
      }

      deal_loop-one :
          (addresses : List String)
          → addresses ≡ address ∷ others
          → AreFound fetch tx
          → needs_broker fetch addresses tx ≡ true
          → deal_loop fetch addresses (tx ∷ []) ≡ some (raw_of address tx ∷ [], [])
      unfolding deal_loop
      deal_loop-one addresses has (to, from) needs =
          rw (to, from, needs, deal_loop, ap (λ l. get_elem? l 0) has) refl

      tx1_confirm_loop-one :
          (h : Bytes) (b : Broker)
          → b.broker_address ≡ address ∷ others
          → is_some (lookup (lib.digest (raw_of address tx)) b.broker_raw_megs) ≡ true
          → tx1_confirm_loop lib (record { tx1_hash = h; raw_meg = raw_of address tx } ∷ []) b
            ≡ some (
              record { raw_meg = raw_of address tx; broker = address } ∷ [],
              record b { raw_tx2broker_tx = append_hash lib tx.tx_hash h b.raw_tx2broker_tx },
            )
      unfolding tx1_confirm_loop
      tx1_confirm_loop-one h b has known =
          rw (known, tx1_confirm_loop, ap (λ l. get_elem? l 0) has) refl

      deal_one :
          (bcm : BrokerCommittee)
          → bcm.broker.broker_address ≡ address ∷ others
          → AreFound fetch tx
          → IsRoutable fetch bcm.broker.broker_address
              (tx1_of lib (record { raw_meg = raw_of address tx; broker = address }))
          → needs_broker fetch bcm.broker.broker_address tx ≡ true
          → Gives
              (λ (itxs, sent, bcm'). bcm' ≡ dealt bcm)
              (deal_tx_by_broker lib fetch shard_num inject_speed (tx ∷ []) bcm)
      unfolding deal_tx_by_broker handle_broker_raw_mag raw_loop handle_broker_type1_mes type1_loop
      deal_one bcm has found routable needs =
          rw (deal_loop-one bcm.broker.broker_address has found needs) (
            Gives-bind (λ (sent, bcm'). bcm' ≡ dealt bcm) _
              (handle_broker_raw_mag lib fetch shard_num inject_speed (raw_of address tx ∷ []) bcm)
              _
              (Gives-bind (λ msgs. Unit) (λ (sent, bcm'). bcm' ≡ dealt bcm) _ _
                (sends (tx1_of lib (record { raw_meg = raw_of address tx; broker = address })) bcm
                  routable)
                (λ msgs _. refl))
              (λ (sent, bcm') is. is))

      -- After the report of the first half, and after that of the second.
      abbrev half_done : BrokerCommittee → BrokerCommittee
      half_done bcm = record bcm {
        broker = record (bcm.broker) {
          raw_tx2broker_tx =
              append_hash lib tx.tx_hash (first_hash lib address tx) bcm.broker.raw_tx2broker_tx;
        };
        broker_confirm2_pool =
            insert (second_hash lib address tx)
              (record { tx2_hash = (second_hash lib address tx); raw_meg = raw_of address tx })
              bcm.broker_confirm2_pool;
      }

      abbrev all_done : BrokerCommittee → BrokerCommittee
      all_done bcm = record bcm {
        broker = record (bcm.broker) {
          raw_tx2broker_tx =
              append_hash lib tx.tx_hash (second_hash lib address tx) bcm.broker.raw_tx2broker_tx;
        };
      }

      confirm_first :
          (bcm : BrokerCommittee)
          → bcm.broker.broker_address ≡ address ∷ others
          → lookup (first_hash lib address tx) bcm.broker_confirm1_pool
            ≡ some (record { tx1_hash = (first_hash lib address tx); raw_meg = raw_of address tx })
          → lookup (first_hash lib address tx) bcm.broker_confirm2_pool ≡ none
          → is_some (lookup (lib.digest (raw_of address tx)) bcm.broker.broker_raw_megs) ≡ true
          → IsRoutable fetch bcm.broker.broker_address
              (tx2_of lib (record { raw_meg = raw_of address tx; broker = address }))
          → Gives
              (λ (sent, bcm'). bcm' ≡ half_done bcm)
              (create_confirm lib fetch shard_num inject_speed
                (tx1_of lib (record { raw_meg = raw_of address tx; broker = address }) ∷ [])
                bcm)
      unfolding create_confirm handle_tx1_confirm_mag handle_broker_type2_mes type2_loop
      confirm_first bcm has waits1 waits2 known routable =
          let tx1 = tx1_of lib (record { raw_meg = raw_of address tx; broker = address }) in
          rw
            (
              confirms_of-some bcm.broker_confirm1_pool tx1 _ waits1,
              confirms_of-none bcm.broker_confirm2_pool tx1 waits2,
              tx1_confirm_loop-one (first_hash lib address tx) (bcm.broker) has known,
            )
            (Gives-bind (λ (sent, bcm'). bcm' ≡ half_done bcm) _ _ _
              (Gives-bind (λ msgs. Unit) (λ (sent, bcm'). bcm' ≡ half_done bcm) _ _
                (sends (tx2_of lib (record { raw_meg = raw_of address tx; broker = address }))
                  (record bcm {
                    broker = record (bcm.broker) {
                      raw_tx2broker_tx =
                          append_hash lib tx.tx_hash (first_hash lib address tx)
                            bcm.broker.raw_tx2broker_tx;
                    };
                  })
                  routable)
                (λ msgs _. refl))
              (λ (sent, bcm') is. is))

      confirm_second :
          (bcm : BrokerCommittee)
          → lookup (second_hash lib address tx) bcm.broker_confirm1_pool ≡ none
          → lookup (second_hash lib address tx) bcm.broker_confirm2_pool
            ≡ some (record { tx2_hash = (second_hash lib address tx); raw_meg = raw_of address tx })
          → Gives
              (λ (sent, bcm'). bcm' ≡ all_done bcm)
              (create_confirm lib fetch shard_num inject_speed
                (tx2_of lib (record { raw_meg = raw_of address tx; broker = address }) ∷ [])
                bcm)
      unfolding create_confirm handle_tx2_confirm_mag
      confirm_second bcm waits1 waits2 =
          let tx2 = tx2_of lib (record { raw_meg = raw_of address tx; broker = address }) in
          rw
            (
              confirms_of-none bcm.broker_confirm1_pool tx2 waits1,
              confirms_of-some bcm.broker_confirm2_pool tx2 _ waits2,
            )
            refl

      -- A transaction that needs a broker is dealt by a committee that has one, with a positive injection
      -- speed and one shard at least, where the program finds the shards of its sender and recipient and
      -- those that it looks up for its two halves; then a report names its first half, and a later one its
      -- second. Where the hashes of the halves differ and none waits in the other's pool, no step panics,
      -- and the raw transaction's list of hashes is extended by the first half's and then the second
      -- half's.
      pub lifecycle-both_hashes :
          (bcm : BrokerCommittee)
          → bcm.broker.broker_address ≡ address ∷ others
          → AreFound fetch tx
          → IsRoutable fetch bcm.broker.broker_address
              (tx1_of lib (record { raw_meg = raw_of address tx; broker = address }))
          → IsRoutable fetch bcm.broker.broker_address
              (tx2_of lib (record { raw_meg = raw_of address tx; broker = address }))
          → needs_broker fetch bcm.broker.broker_address tx ≡ true
          → lookup (first_hash lib address tx) bcm.broker_confirm2_pool ≡ none
          → lookup (second_hash lib address tx) bcm.broker_confirm1_pool ≡ none
          → ((first_hash lib address tx) == (second_hash lib address tx)) ≡ false
          → Gives
              (λ bcm'.
                lookup tx.tx_hash bcm'.broker.raw_tx2broker_tx
                ≡ some (
                    or_zero (lookup tx.tx_hash bcm.broker.raw_tx2broker_tx) []
                    ++ (first_hash lib address tx) ∷ (second_hash lib address tx) ∷ []))
              (lifecycle address tx bcm)
      lifecycle-both_hashes bcm has found routable1 routable2 needs new1 new2 differ =
          Gives-bind (λ (itxs, sent, b). b ≡ dealt bcm) Both
            (deal_tx_by_broker lib fetch shard_num inject_speed (tx ∷ []) bcm) _
            (deal_one bcm has found routable1 needs)
            (λ (itxs, sent, b1) is1.
              subst (λ b. Gives Both (after_deal b)) (sym is1)
                (Gives-bind (λ (sent, b). b ≡ half_done (dealt bcm)) Both _ _ first
                  (λ (sent', b2) is2.
                    subst (λ b. Gives Both (after_first b)) (sym is2)
                      (Gives-bind (λ (sent, b). b ≡ all_done (half_done (dealt bcm))) Both _ _
                        second (λ (sent'', b3) is3. subst Both (sym is3) end)))))
        where
          Both : BrokerCommittee → Type 0
          Both bcm' =
              lookup tx.tx_hash bcm'.broker.raw_tx2broker_tx
              ≡ some (
                  or_zero (lookup tx.tx_hash bcm.broker.raw_tx2broker_tx) []
                  ++ (first_hash lib address tx) ∷ (second_hash lib address tx) ∷ [])

          after_first : BrokerCommittee → Option BrokerCommittee
          after_first b =
              create_confirm lib fetch shard_num inject_speed
                (tx2_of lib (record { raw_meg = raw_of address tx; broker = address }) ∷ []) b
              >>= λ r. some (r.1)

          after_deal : BrokerCommittee → Option BrokerCommittee
          after_deal b =
              create_confirm lib fetch shard_num inject_speed
                (tx1_of lib (record { raw_meg = raw_of address tx; broker = address }) ∷ []) b
              >>= λ r. after_first (r.1)

          second :
              Gives
                (λ (sent, b). b ≡ all_done (half_done (dealt bcm)))
                (create_confirm lib fetch shard_num inject_speed
                  (tx2_of lib (record { raw_meg = raw_of address tx; broker = address }) ∷ [])
                  (half_done (dealt bcm)))
          second =
              confirm_second (half_done (dealt bcm))
                (lookup-insert_ne (first_hash lib address tx) (second_hash lib address tx) _
                    bcm.broker_confirm1_pool differ
                  ∙ new2)
                (lookup-insert_self (second_hash lib address tx) _ bcm.broker_confirm2_pool)

          end : Both (all_done (half_done (dealt bcm)))
          end =
              rw
                (
                  lookup-insert_self tx.tx_hash
                      (or_zero
                          (lookup tx.tx_hash (
                            append_hash lib tx.tx_hash (first_hash lib address tx)
                              bcm.broker.raw_tx2broker_tx))
                          []
                        ++ second_hash lib address tx ∷ [])
                      (append_hash lib tx.tx_hash (first_hash lib address tx)
                        bcm.broker.raw_tx2broker_tx),
                  lookup-insert_self tx.tx_hash
                      (or_zero (lookup tx.tx_hash bcm.broker.raw_tx2broker_tx) []
                        ++ first_hash lib address tx ∷ [])
                      bcm.broker.raw_tx2broker_tx,
                )
                (ap some (
                  append_assoc (or_zero (lookup tx.tx_hash bcm.broker.raw_tx2broker_tx) [])
                    (first_hash lib address tx ∷ []) (second_hash lib address tx ∷ [])))

          first :
              Gives
                (λ (sent, b). b ≡ half_done (dealt bcm))
                (create_confirm lib fetch shard_num inject_speed
                  (tx1_of lib (record { raw_meg = raw_of address tx; broker = address }) ∷ [])
                  (dealt bcm))
          first =
              confirm_first (dealt bcm) has
                (lookup-insert_self (first_hash lib address tx)
                  (record { tx1_hash = (first_hash lib address tx); raw_meg = raw_of address tx })
                  bcm.broker_confirm1_pool)
                new1
                (ap is_some (
                  lookup-insert_self (lib.digest (raw_of address tx)) (raw_of address tx)
                    bcm.broker.broker_raw_megs))
                routable2
