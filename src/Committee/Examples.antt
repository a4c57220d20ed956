-- ===== src/Committee/Examples.antt =====
-- A data set of four rows, two shards, and one broker.
use blbchain.Base.{
  lookup, ℕ, ◌*◌, ◌≡◌, refl, String, string_eq, nat_eq, Bool, true, Option, none, some, List, [],
  ◌∷◌, All, Gives, inl, inr, Bool-cases, nat_beq, if◌then◌else◌, filterb, take, bytes_eq, ◌==◌,
  arith,
}
use blbchain.Core.Transaction.{Transaction, new_transaction}
use blbchain.Chain.State.{Library, addr2shard}
use blbchain.Relay.{BlockInfoMsg}
use blbchain.Partition.{Graph, has_vertex}
use blbchain.Partition.Examples.{naturals, payers, vertices, payers-IsSound}
use blbchain.Committee.{DataLibrary, data2tx, msg_sending_control, tx_sending}
use blbchain.Committee.Dataset.{sent_all, Reads, skipped, taken, at_end, msg_sending_control-take}
use blbchain.Committee.Clpa.{
  ClpaEvent, due, reported, ClpaCommittee, account_shard, new_clpa_committee, clpa_round, clpa_run,
}
use blbchain.Committee.Placement.{
  IsReadable, IsPlaced, Follows, EndsPlaced, clpa_round-Follows, new_clpa_committee-EndsPlaced,
}
use blbchain.Committee.Broker.{
  needs_broker, broker_route, tx2_of, BrokerRawMeg, tx1_of, BrokerLibrary, BrokerCommittee,
  new_broker_committee, create_confirm, deal_tx_by_broker,
}
use blbchain.Committee.Answers.{CarriesPaired, answers, create_confirm-answers}
use blbchain.Committee.Answers.Lifecycle.{lifecycle, first_hash, second_hash, lifecycle-both_hashes}
use blbchain.Committee.Answers.Deals.{Dealt, deal_tx_by_broker-Dealt}

abbrev data_set : DataLibrary
data_set = record {
  set_string = λ s. if s == "7" then some 7 else none;
  hash = λ tx. tx.nonce ∷ tx.value ∷ [];
  clock = λ nonce. nonce * 10;
}

abbrev row : String → String → String → List String
row sender recipient kind = "" ∷ "" ∷ "" ∷ sender ∷ recipient ∷ "" ∷ kind ∷ "0" ∷ "7" ∷ []

abbrev alice : String
alice = "0xaaaaaaaaaaaaaaaa"

abbrev bob : String
bob = "0xbbbbbbbbbbbbbbbb"

abbrev rows : List (Option (List String))
rows =
    some (row alice bob "0")
    ∷ some (row alice bob "1")
    ∷ some (row bob alice "0")
    ∷ some (row alice bob "0")
    ∷ []

abbrev payment : String → String → ℕ → Transaction
payment a b nonce = new_transaction (data_set.hash) a b 7 nonce (nonce * 10)

abbrev payments : List Transaction
payments =
    payment "aaaaaaaaaaaaaaaa" "bbbbbbbbbbbbbbbb" 0
    ∷ payment "bbbbbbbbbbbbbbbb" "aaaaaaaaaaaaaaaa" 1
    ∷ payment "aaaaaaaaaaaaaaaa" "bbbbbbbbbbbbbbbb" 2
    ∷ []

-- Alice's shard is 0, everybody else's 1.
abbrev shard : String → ℕ
shard a = if a == "aaaaaaaaaaaaaaaa" then 0 else 1

rows-Reads : Reads data_set rows 0 payments
unfolding data2tx
rows-Reads = taken refl (skipped refl (taken refl (taken refl at_end)))

msg_sending_control-take_example :
    Gives
      (λ batches.
        sent_all 0 batches ≡ filterb (λ tx. nat_beq (shard tx.sender) 0) (take 3 payments))
      (msg_sending_control data_set
        (tx_sending 2 5 (λ tx. shard tx.sender))
        2
        3
        rows
        (record { txlist = []; now_data_num = 0 }))
msg_sending_control-take_example =
    msg_sending_control-take data_set 2 5 2 3 0 (λ tx. shard tx.sender) rows payments rows-Reads
      (omega arith) (omega arith) (omega arith) (omega arith)

abbrev lib : Library
lib = record {
  root_of = λ st. [];
  hash_header = λ bh. [];
  tree_root = λ keys. [];
  is_empty_root = λ root. true;
  parse_uint = λ s. some (if s == "aaaaaaaa" then 0 else 1);
}

abbrev report : BlockInfoMsg
report = record {
  block_body_length = 3;
  inner_shard_txs = payments;
  relay1_txs = [];
  relay2_txs = [];
  sender_shard_id = 0;
}

abbrev order : Graph → ℕ → List String
order g k = filterb (λ v. has_vertex v g) ("aaaaaaaaaaaaaaaa" ∷ "bbbbbbbbbbbbbbbb" ∷ [])

filterb-All : (p : String → Bool) (vs : List String) → All (λ v. p v ≡ true) (filterb p vs)
filterb-All p [] = tt
filterb-All p (v ∷ vs) = elim (Bool-cases (p v)) [
  | inl t ↦ rw t (t, filterb-All p vs)
  | inr f ↦ rw f (filterb-All p vs)
]

order-fits : (g : Graph) (k : ℕ) → All (λ v. has_vertex v g ≡ true) (order g k)
order-fits g k = filterb-All (λ v. has_vertex v g) ("aaaaaaaaaaaaaaaa" ∷ "bbbbbbbbbbbbbbbb" ∷ [])

abbrev events : List ClpaEvent
events = reported 0 report ∷ due ∷ reported 1 report ∷ due ∷ []

new_clpa_committee-EndsPlaced_example :
    Gives (EndsPlaced lib 2) (clpa_run 0 naturals order lib 2 events (new_clpa_committee 0 2))
unfolding addr2shard new_transaction
new_clpa_committee-EndsPlaced_example =
    new_clpa_committee-EndsPlaced lib 2 0 naturals order order-fits (omega arith) events
      (readable, (tt, (readable, (tt, tt))))
  where
    readable : IsReadable lib 2 report
    readable = (((refl, refl), ((refl, refl), ((refl, refl), tt))), tt)

-- A committee whose graph has an edge between two accounts of different shards.
abbrev settled : ClpaCommittee ℕ
settled = record { cur_epoch = 3; clpa_graph = payers; modified_map = payers.partition_map }

settled-IsPlaced : IsPlaced lib 2 settled
unfolding lookup account_shard
settled-IsPlaced = record {
  graph_sound = payers-IsSound;
  graph_shards = refl;
  agree = λ a. refl;
  modified_once = (refl, (refl, (refl, tt)));
  modified_in_range = (omega arith, (omega arith, (omega arith, tt)));
}

clpa_round-Follows_example :
    Gives
      (λ (msgs, ccm'). IsPlaced lib 2 ccm' × Follows lib 2 settled msgs ccm')
      (clpa_round 0 2 naturals vertices settled)
unfolding has_vertex lookup
clpa_round-Follows_example =
    clpa_round-Follows lib 2 0 naturals vertices settled settled-IsPlaced
      (λ k. (refl, (refl, (refl, tt))))

-- Every address has a shard.
abbrev found : String → Option ℕ
found a = some (shard a)

abbrev brokers : BrokerLibrary
brokers = record {
  hash = λ tx. tx.nonce ∷ tx.time ∷ [];
  digest = λ meg. meg.tx.nonce ∷ [];
  clock1 = λ tx. 100;
  clock2 = λ tx. 200;
}

abbrev dave : BrokerCommittee
dave = new_broker_committee ("dddddddddddddddd" ∷ [])

deal_tx_by_broker-Dealt_example :
    Gives
      (Dealt brokers found 0 "dddddddddddddddd" dave payments)
      (deal_tx_by_broker brokers found 2 5 payments dave)
unfolding new_broker_committee new_transaction broker_route needs_broker tx1_of
deal_tx_by_broker-Dealt_example =
    deal_tx_by_broker-Dealt brokers found 2 5 0 (omega arith) (omega arith) "dddddddddddddddd" []
      payments dave refl (record { confirm1 = tt; confirm2 = tt })
      ((refl, refl), ((refl, refl), ((refl, refl), tt))) (refl, (refl, (refl, tt)))

abbrev raw : BrokerRawMeg
raw = record { tx = payment "aaaaaaaaaaaaaaaa" "bbbbbbbbbbbbbbbb" 0; broker = "dddddddddddddddd" }

abbrev dealt : BrokerCommittee
dealt = record {
  broker = record {
    broker_raw_megs = (0 ∷ [], raw) ∷ [];
    broker_address = "dddddddddddddddd" ∷ [];
    raw_tx2broker_tx = [];
  };
  broker_confirm1_pool = (0 ∷ 100 ∷ [], record { tx1_hash = 0 ∷ 100 ∷ []; raw_meg = raw }) ∷ [];
  broker_confirm2_pool = [];
}

abbrev firsts : List Transaction
firsts = tx1_of brokers (record { raw_meg = raw; broker = "dddddddddddddddd" }) ∷ []

create_confirm-answers_example :
    Gives
      (CarriesPaired brokers found 0 dealt (answers brokers "dddddddddddddddd" dealt firsts))
      (create_confirm brokers found 2 5 firsts dealt)
unfolding lookup new_transaction broker_route tx1_of tx2_of
create_confirm-answers_example =
    create_confirm-answers brokers found 2 5 0 (omega arith) (omega arith) "dddddddddddddddd" []
      firsts dealt refl (record { confirm1 = ((refl, refl), tt); confirm2 = tt }) (refl, tt)

abbrev crossing : Transaction
crossing = payment "aaaaaaaaaaaaaaaa" "bbbbbbbbbbbbbbbb" 0

lifecycle-both_hashes_example :
    Gives
      (λ bcm.
        lookup (crossing.tx_hash) bcm.broker.raw_tx2broker_tx
        ≡ some (
            first_hash brokers "dddddddddddddddd" crossing
            ∷ second_hash brokers "dddddddddddddddd" crossing
            ∷ []))
      (lifecycle brokers found 2 5 "dddddddddddddddd" crossing dave)
unfolding new_broker_committee needs_broker broker_route lookup new_transaction tx1_of tx2_of
lifecycle-both_hashes_example =
    lifecycle-both_hashes brokers found 2 5 (omega arith) (omega arith) "dddddddddddddddd" []
      crossing dave refl (refl, refl) refl refl refl refl refl refl
