-- ===== src/Pbft/Votes.antt =====
-- shard/nodes.go and `set2DMap` of consensus_shard/pbft_all/toolFuncs.go: the voters recorded for a
-- digest. The code keys the inner map by pointers, which are new for each message, and compares
-- the node's numbers by hand: a list of nodes.
use blbchain.Base.{
  ℕ, ◌≤◌, ◌≡◌, inl, inr, Bool, false, ◌&&◌, ◌||◌, List, [], ◌∷◌, String, arith, length, nat_beq,
  if◌then◌else◌, Bool-cases, Map, lookup, insert, or_zero, Bytes, bytes_eq,
}

pub record Peer : Type 0 where
  pub node_id : ℕ
  pub shard_id : ℕ
  pub ip_addr : String

abbrev pub same_node : Peer → Peer → Bool
same_node a b = nat_beq a.node_id b.node_id && nat_beq a.shard_id b.shard_id

-- The loop over the recorded voters: does one have the node's numbers?
unfoldable pub recorded : List Peer → Peer → Bool
recorded [] v = false
recorded (x ∷ xs) v = same_node x v || recorded xs v

unfoldable pub add_voter : Peer → List Peer → List Peer
unfolding recorded
add_voter v xs = if recorded xs v then xs else v ∷ xs

-- The voters recorded for a digest; a missing key reads as an empty map.
unfoldable pub voters : Bytes → Map Bytes (List Peer) → List Peer
unfolding lookup
voters d m = or_zero (lookup d m) []

-- `set2DMap` at one of the two maps.
unfoldable pub set_2d_map : Bytes → Peer → Map Bytes (List Peer) → Map Bytes (List Peer)
unfolding add_voter insert voters
set_2d_map d v m = insert d (add_voter v (voters d m)) m

-- No two of them are one node.
abbrev pub Distinct : List Peer → Type 0
Distinct [] = Unit
Distinct (x ∷ xs) = (recorded xs x ≡ false) × Distinct xs

pub add_voter-Distinct : (v : Peer) (xs : List Peer) → Distinct xs → Distinct (add_voter v xs)
unfolding add_voter
add_voter-Distinct v xs h = elim (Bool-cases (recorded xs v)) [
  | inl t ↦ rw t h
  | inr f ↦ rw f (f, h)
]

pub length-add_voter : (v : Peer) (xs : List Peer) → length xs ≤ length (add_voter v xs)
unfolding add_voter
length-add_voter v xs = ground arith
