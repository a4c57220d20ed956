-- ===== src/Relay/Examples.antt =====
-- Inputs at which the theorems on relaying apply: an account "a" of shard 0 and one "b" of shard 1.
use blbchain.Base.{
  ℕ, ◌+◌, ◌<◌, ◌≡◌, ◌≢◌, refl, true, not, none, some, [], ◌∷◌, ◌++◌, map, filterb, String,
  string_eq, ◌==◌, nat_eq, lookup, if◌then◌else◌, arith,
}
use blbchain.Core.Transaction.{Transaction, new_transaction}
use blbchain.Core.TxPool.{stamp}
use blbchain.Core.Block.{Block}
use blbchain.Chain.State.{Library, BlockChain, has_home, get_partition_map, addr2shard, home_of}
use blbchain.Chain.Exec.{exec_tx}
use blbchain.Chain.Exec.Balances.{balance_of, value_if, covered, total}
use blbchain.Relay.{Relay, Routed, Committed, Outside, mark, route_txs, relay_block, handle_relay}
use blbchain.Relay.Routes.{leaves_for, RoutesTo, route_txs-RoutesTo}
use blbchain.Relay.Money.{IsCross, relay-total}
use blbchain.Relay.Delivery.{relay_block-delivers}

abbrev alice : String
alice = "a"

abbrev bob : String
bob = "b"

abbrev home : String → ℕ
home addr = if addr == alice then 0 else 1

abbrev pays : ℕ → Transaction
pays v = new_transaction (λ tx. tx.value ∷ []) alice bob v 0 7

abbrev back : Transaction
back = new_transaction (λ tx. tx.value ∷ []) alice alice 5 0 7

abbrev start : Routed
start = record {
  inter_shard = [];
  relay1 = [];
  relay2 = [];
  pool = record { tx_queue = []; relay_pool = some [] };
  body = [];
}

pays-IsCross : IsCross home 0 1 (pays 30)
unfolding new_transaction
pays-IsCross = record {
  apart = omega arith;
  fresh = refl;
  plain = refl;
  starts = refl;
  ends = refl;
}

route_txs-RoutesTo_example :
    (r' : Routed) × (route_txs (λ a. true) home 0 (pays 30 ∷ back ∷ []) start ≡ some r')
    × RoutesTo home 0 (pays 30 ∷ back ∷ []) start r'
route_txs-RoutesTo_example =
    route_txs-RoutesTo home 0 (λ a. true) (pays 30 ∷ back ∷ []) start []
      ((refl, refl), ((refl, refl), tt)) refl

relay-total_example :
    (leaves_for home 0 1 (pays 30) ≡ true)
    × (total 100 (alice ∷ []) (exec_tx home 0 100 0 (pays 30) []).0
          + total 100 (bob ∷ []) (exec_tx home 1 100 0 (mark (pays 30)) []).0
        ≡ total 100 (alice ∷ []) []
          + total 100 (bob ∷ []) []
          + value_if (not (covered home 0 100 (pays 30) [])) 30)
unfolding new_transaction
relay-total_example =
    relay-total home 0 1 100 (pays 30) pays-IsCross 0 0 [] [] (alice ∷ []) (bob ∷ []) (refl, tt)
      (refl, tt) refl refl

-- A transaction of more than the sender has makes the two balances 330 out of 200.
relay_mints :
    total 100 (alice ∷ []) (exec_tx home 0 100 0 (pays 130) []).0
      + total 100 (bob ∷ []) (exec_tx home 1 100 0 (mark (pays 130)) []).0
    ≡ 330
unfolding exec_tx new_transaction balance_of
relay_mints = refl

abbrev lib : Library
lib = record {
  root_of = λ st. [];
  hash_header = λ bh. [];
  tree_root = λ keys. [];
  is_empty_root = λ root. true;
  parse_uint = λ s. some (1);
}

abbrev top : Block
top = record {
  header = record {
    parent_block_hash = [];
    state_root = [];
    tx_root = [];
    bloom = [];
    number = 1;
    time = 0;
    miner = 0;
  };
  body = pays 30 ∷ back ∷ [];
  hash = 1 ∷ [];
}

abbrev chain : BlockChain
chain = record {
  shard_id = 0;
  shard_num = 2;
  block_size = 2;
  init_balance = 100;
  tx_pool = record { tx_queue = back ∷ []; relay_pool = none };
  current_block = top;
  storage = top ∷ [];
  triedb = [];
  partition_map = (alice, 0) ∷ [];
}

relay_block-delivers_example :
    (c : Committed) × (relay_block lib 3 top true chain ≡ some c)
    × (c.chain.tx_pool.tx_queue ≡ chain.tx_pool.tx_queue)
    × (c.chain.tx_pool.relay_pool ≡ none)
    × (map (λ m. m.0) c.msgs ≡ 1 ∷ [])
    × ((sid now : ℕ) (o : Outside)
        → sid < 2
        → sid ≢ 0
        → (m : Relay) × (lookup sid c.msgs ≡ some m)
          × ((handle_relay now m o).chain.tx_pool.tx_queue
              ≡ o.chain.tx_pool.tx_queue
                ++ map
                    (λ tx. stamp now (mark tx))
                    (filterb (leaves_for (home_of lib chain) 0 sid) top.body)))
unfolding has_home get_partition_map addr2shard new_transaction
relay_block-delivers_example =
    relay_block-delivers lib 3 top true chain ((refl, refl), ((refl, refl), tt))
