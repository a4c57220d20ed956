-- ===== src/Lib.antt =====
-- BLBChain is a sharded blockchain emulator in Go. A supervisor sends transactions to the shards; the
-- nodes of a shard agree on blocks by PBFT; the main node of a shard makes blocks from its pool,
-- executes them on a trie of accounts, and sends on what other shards have to finish. A second
-- consensus, ExClique, lets validators take turns. This library models the parts below.
--
-- Base: the names that all files share, Boolean tests, lists and maps over the native numbers, chains of
--   steps that may fail, integers.
-- Core: core/transaction.go, core/txpool.go, core/block.go and core/account.go. A method of the pool
--   is a function from pool to pool; the mutex makes it one step. A nil relay pool is `none`.
-- Chain: chain/blockchain.go and utils/utils_partition.go. State has the record of a chain and the
--   library's parameters; Exec is the loop of GetUpdateStatusTrie, Blocks has GenerateBlock, AddBlock,
--   IsValidBlock, AddAccounts and FetchAccounts; Linked, Generated and Added are about the blocks
--   and accounts that these leave.
-- Pbft: consensus_shard/pbft_all/pbft.go, messageHandle.go, view_change.go, toolFuncs.go and
--   message/message_viewChange.go. Node is PbftConsensusNode, Handlers the three phases, CatchUp the
--   requests for old blocks, ViewChange the timeouts, and Rounds a relation whose steps are the
--   handlers' runs in any order. The module that a committee method chooses is the record ExtraOp.
-- Relay: consensus_shard/pbft_all/pbftInside_module.go, pbftOutside_module.go and the functions of
--   toolFuncs.go that send, over Chain and Core.
-- Proposal: consensus_shard/pbft_all/overhead.go, where a proposal carries the keys of the
--   transactions in place of the transactions.
-- Migration: the account transfer of the CLPA methods, consensus_shard/pbft_all/accountTransfer_module.go,
--   pbftOutside_moduleCLPA.go and dataSupport. The main node of a shard sends the accounts that leave and
--   their transactions (Sending, Pool), joins what the others send and proposes the partition
--   (Activation, Acceptance); every node activates it (Moved). Rounds interleaves the
--   proposer of pbftInside_moduleCLPA.go, whose loops wait, with the handlers. It uses Chain and Core.
-- ExClique: consensus_shard/exclique. Filter is the counting Bloom filter of cbf.go, Order the order of
--   order.go, Delay the waiting times of delay.go, and Node the node of exclique.go with the compact
--   blocks of pcb.go and the handlers of message_handler.go.
-- Partition: partition/graph.go and the CLPA part of partition/partition_CLPA.go: the graph of accounts, and
--   CLPA_Partition, which moves accounts between shards. Go's floats are a parameter. Tallies, Members and
--   Sound are about the counters of the shards, Moves and Result about a run, Growth about new edges;
--   Start is Stable_Init_Partition, which deals the accounts out.
-- Committee: what the committees of supervisor/committee send. The file itself has txSending, data2tx and the
--   relay committee's MsgSendingControl; Clpa is committee_clpa.go, which runs Partition, and Broker is
--   committee_broker.go with broker/broker.go and message/message_broker.go; ClpaBroker, of
--   committee_clpa_broker.go, puts the two together. Sending and Dataset are about
--   what reaches a shard, Placement about where the CLPA committee believes an account to be, Answers about
--   the two halves of a broker transaction, with Deals and Lifecycle below it.
-- BrokerShard: consensus_shard/pbft_all/pbftInside_moduleBroker.go and pbftOutside_moduleBroker.go, the shard's
--   side of what the broker committee sends.
-- Message: the envelope of message/message.go.
-- Storage: storage/storage.go, over an interface of the buckets of the database bolt.
-- Stop: supervisor/signal/supervisorStopModule.go, by which the supervisor sees that the shards have
--   nothing left to do.
--
-- Go's uint64 is a natural number reduced modulo 2 ^ 64 where the code adds or subtracts. Balances and
-- values are natural numbers, as those of the data set are: the code tests before it subtracts. Heights
-- of blocks and numbers of shards are not reduced. A panic is `none`, a handler that waits or is
-- stuck a value of Outcome. All loops are recursions on a list or on the number of rounds that the code
-- fixes, so that no fuel is needed. A handler's run is one step: those of the three phases
-- hold the lock `pbftLock`, while those of view changes and of old requests, and Propose, do not, so that
-- their being one step is an assumption. The view that a handler reads before it takes the lock is an
-- argument. The clock and the random draws are
-- arguments too.
--
-- Parameters stand for code that is not here: SHA-256, FNV-1a, the encodings of gob, RLP and JSON, the
-- database bolt, and the trie library, of which the root of a set of accounts, the root of a list of
-- keys and the test for the empty root are taken. What a theorem relies on, such as that a decoder
-- undoes an encoder, is one of its hypotheses.
--
-- The order in which Go ranges over the graph's vertices is an argument. A goroutine's message counts as sent
-- when it is started, and the lock of the CLPA committee makes a partition round and a report one step each. The committees with
-- brokers lock parts of their handlers only: there a handler's run without another one in between is modelled.
--
-- Addr2Shard stops the program on an address that is no hexadecimal number. This is `none` in what Relay, Partition
-- and Committee do with an address, and in sending the accounts of a new partition. Executing transactions, adding
-- accounts and the relay committee take a function from addresses to shards, so are about addresses that have one.
-- Durations of ExClique's delays are 64 bits wide in the sums and products.
--
-- Not modelled: sockets and rate limits (networks), files (logs, experiment), start-up (main.go,
-- build, params), Merkle proofs, the contribution and Louvain partition algorithms, the committees of
-- overhead, contribution and Louvain, the measures, and the contribution module of
-- PBFT. The nodes are not tied together into a network: what the network may do is among the hypotheses
-- of a theorem.
pub mod Base
pub mod Chain
pub mod ExClique
pub mod Core
pub mod Message
pub mod Migration
pub mod Partition
pub mod Committee
pub mod BrokerShard
pub mod Pbft
pub mod Proposal
pub mod Relay
pub mod Stop
pub mod Storage
