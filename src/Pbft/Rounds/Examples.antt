-- ===== src/Pbft/Rounds/Examples.antt =====
-- Inputs at which the theorems on the node apply: a shard of four nodes, and a chain that counts the
-- requests carried out.
use blbchain.Base.{
  ℕ, ◌+◌, ◌≤◌, ◌≡◌, refl, ◌⊎◌, true, false, List, [], ◌∷◌, Bytes, All, length, arith,
}
use blbchain.Pbft.Votes.{Peer, Distinct, recorded, voters}
use blbchain.Pbft.Quorum.{common, length-common}
use blbchain.Pbft.Node.{
  Request, block_request, PrePrepare, Prepare, Commit, NewViewMsg, Node, ExtraOp, done, prepares,
  new_pbft_node,
}
use blbchain.Pbft.Handlers.{commit_broadcast, handle_pre_prepare, handle_commit}
use blbchain.Pbft.Handlers.Invariant.{IsCounted}
use blbchain.Pbft.Handlers.Effects.{Ended, handle_commit-Ended}
use blbchain.Pbft.Handlers.Equivocation.{handle_pre_prepare_twice}
use blbchain.Pbft.Node.{RequestOldMessage, SendOldMessage, answers}
use blbchain.Pbft.Handlers.{is_main}
use blbchain.Pbft.CatchUp.{handle_request_old_seq}
use blbchain.Pbft.CatchUp.Answers.{Holds, handle_request_old_seq-Holds}
use blbchain.Pbft.ViewChange.{handle_new_view_msg}
use blbchain.Pbft.ViewChange.Repeats.{new_view_repeats}
use blbchain.Pbft.Rounds.{Event, pre_prepare, prepare, Reach, here, run}
use blbchain.Pbft.Rounds.Invariant.{Reach-IsCounted, run-Reach}
use blbchain.Pbft.Rounds.Agreement.{Reach-agree}

abbrev counting : ExtraOp ℕ
counting = record {
  propose = λ c. (record { request_type = block_request; content = c ∷ []; req_time = 0 }, c);
  pre_prepare = λ m c. (true, c);
  prepare = λ m c. c;
  commit = λ main m r c. c + 1;
  request_old = λ m c. c;
  sequential = λ m c. c;
}

abbrev digest_of : Request → Bytes
digest_of r = r.content

abbrev peer : ℕ → Peer
peer i = record { node_id = i; shard_id = 0; ip_addr = "" }

abbrev block : ℕ → Request
block k = record { request_type = block_request; content = k ∷ []; req_time = 0 }

abbrev start : ℕ → Node ℕ
start i = new_pbft_node (peer i) 0 0 4 0

abbrev offers : ℕ → PrePrepare
offers k = record { request_msg = block k; digest = k ∷ []; seq_id = 1 }

abbrev vote : ℕ → Prepare
vote i = record { digest = 7 ∷ []; seq_id = 1; sender_node = peer i }

abbrev commits_by : ℕ → Commit
commits_by i = record { digest = 7 ∷ []; seq_id = 1; sender_node = peer i }

abbrev prepares_all : List Event
prepares_all =
    pre_prepare 0 (offers 7)
    ∷ prepare 0 (vote 1)
    ∷ prepare 0 (vote 1)
    ∷ prepare 0 (vote 2)
    ∷ prepare 0 (vote 3)
    ∷ []

-- A node that has sent its commit, with the votes of nodes 1, 2 and 3.
abbrev prepared_node : ℕ → Node ℕ
prepared_node i = record (start i) {
  request_pool = (7 ∷ [], block 7) ∷ [];
  height2digest = (1, 7 ∷ []) ∷ [];
  cnt_prepare_confirm = (7 ∷ [], peer 3 ∷ peer 2 ∷ peer 1 ∷ []) ∷ [];
  is_commit_broadcast = (7 ∷ [], true) ∷ [];
  pbft_stage = 3;
}

prepared_reached : (i : ℕ) → Reach counting digest_of (start i) (prepared_node i)
unfolding run new_pbft_node
prepared_reached i =
    run-Reach counting digest_of prepares_all (start i) (start i) (prepared_node i) here refl

Reach-IsCounted_example :
    let p = prepared_node 1 in
    IsCounted p.malicious_nums p.cnt_prepare_confirm p.cnt_commit_confirm p.is_commit_broadcast
Reach-IsCounted_example = Reach-IsCounted counting digest_of (peer 1) 0 0 4 0 (prepared_reached 1)

no_faulty : (zs : List Peer) → Distinct zs → All (λ x. false ≡ true) zs → length zs ≤ 1
no_faulty [] d h = omega arith
no_faulty (z ∷ zs) d (h, hs) = cc

Reach-agree_example : ◌≡◌ {A = Bytes} (7 ∷ []) (7 ∷ [])
unfolding new_pbft_node commit_broadcast voters
Reach-agree_example =
    Reach-agree counting digest_of 1 0 4 (λ x. false) (7 ∷ []) (7 ∷ []) (peer 1) (peer 2) 0 0 0 0 4
      0 0 (prepared_reached 1) (prepared_reached 2) refl refl (omega arith)
      ((refl, omega arith), ((refl, omega arith), ((refl, omega arith), tt)))
      ((refl, omega arith), ((refl, omega arith), ((refl, omega arith), tt))) no_faulty
      (λ x f a b. refl) refl refl

-- Two commits are counted; the third ends the round.
abbrev nearly : Node ℕ
nearly = record (prepared_node 1) { cnt_commit_confirm = (7 ∷ [], peer 2 ∷ peer 1 ∷ []) ∷ [] }

abbrev finished : Node ℕ
finished = record nearly {
  cnt_commit_confirm = (7 ∷ [], peer 3 ∷ peer 2 ∷ peer 1 ∷ []) ∷ [];
  cur_chain = 1;
  is_reply = (7 ∷ [], true) ∷ [];
  sequence_id = 2;
  pbft_stage = 1;
  last_commit_time = 9;
}

handle_commit-Ended_example :
    ((finished.cur_chain ≡ nearly.cur_chain) × (finished.sequence_id ≡ nearly.sequence_id))
    ⊎ Ended counting (commits_by 3) nearly finished
unfolding handle_commit new_pbft_node
handle_commit-Ended_example =
    handle_commit-Ended counting 9 0 (commits_by 3) nearly finished [] refl

handle_pre_prepare_twice_example :
    (q : Node ℕ) × (r : Node ℕ) × (handle_pre_prepare counting digest_of 0 (offers 7) (start 1)
      ≡ done q (prepares (record { digest = 7 ∷ []; seq_id = 1; sender_node = peer 1 }) ∷ []))
    × (handle_pre_prepare counting digest_of 0 (offers 8) q
        ≡ done r (prepares (record { digest = 8 ∷ []; seq_id = 1; sender_node = peer 1 }) ∷ []))
unfolding new_pbft_node
handle_pre_prepare_twice_example =
    handle_pre_prepare_twice counting digest_of 0 (offers 7) (offers 8) (start 1) refl refl refl
      refl (omega arith) refl refl refl

abbrev back_to_one : NewViewMsg
back_to_one = record { cur_view = 0; next_view = 1; new_seq_id = 1; from_node = 3 }

abbrev waiting_view : Node ℕ
waiting_view = record (start 1) {
  new_view_map = (record { next_view = 1; seq_id = 1 }, 2 ∷ 0 ∷ []) ∷ [];
}

-- The node has gone on to sequence number 40 in the new view.
abbrev gone_on : Node ℕ
gone_on = record (start 1) {
  new_view_map = (record { next_view = 1; seq_id = 1 }, 3 ∷ 2 ∷ 0 ∷ []) ∷ [];
  view = 1;
  sequence_id = 40;
}

new_view_repeats_example :
    ((handle_new_view_msg 9 back_to_one gone_on).sequence_id ≡ 1)
    × ((handle_new_view_msg 9 back_to_one gone_on).view ≡ 1)
    × ((handle_new_view_msg 9 back_to_one gone_on).pbft_stage ≡ 1)
unfolding handle_new_view_msg new_pbft_node
new_view_repeats_example = new_view_repeats 9 back_to_one waiting_view gone_on refl refl refl

abbrev behind : RequestOldMessage
behind = record { seq_start_height = 1; seq_end_height = 2; server_node = 0; sender_node = peer 2 }

abbrev main_node : Node ℕ
main_node = record (prepared_node 1) { view = 1 }

handle_request_old_seq-Holds_example :
    ((is_main main_node ≡ false)
      × (handle_request_old_seq counting digest_of behind main_node ≡ done main_node []))
    ⊎ ((is_main main_node ≡ true)
        × ((sb : SendOldMessage) × (handle_request_old_seq counting digest_of behind main_node
              ≡ done
                  (record main_node { cur_chain = counting.request_old behind main_node.cur_chain })
                  (answers sb ∷ []))
            × (sb.seq_start_height ≡ 1)
            × (sb.seq_end_height ≡ 2)
            × Holds 1 2 main_node sb.old_request))
handle_request_old_seq-Holds_example =
    handle_request_old_seq-Holds counting digest_of behind main_node

length-common_example :
    length (peer 1 ∷ peer 2 ∷ []) + length (peer 2 ∷ peer 3 ∷ [])
    ≤ 4 + length (common (peer 2 ∷ peer 3 ∷ []) (peer 1 ∷ peer 2 ∷ []))
unfolding recorded
length-common_example =
    length-common 0 4 (peer 1 ∷ peer 2 ∷ []) (peer 2 ∷ peer 3 ∷ []) (refl, (refl, tt))
      (refl, (refl, tt)) ((refl, omega arith), ((refl, omega arith), tt))
      ((refl, omega arith), ((refl, omega arith), tt))
