-- ===== src/Pbft/ViewChange.antt =====
-- consensus_shard/pbft_all/view_change.go. A set of node numbers is a list without repeats.
-- Each handler is taken as one step, although the code does not hold `pbftLock` in it.
pub mod Repeats
use blbchain.Base.{
  ℕ, zero, suc, ◌+◌, ◌*◌, ◌%◌, ◌≤◌, ◌<◌, ◌≡◌, refl, inl, inr, Bool, true, false, not, ◌||◌, List,
  [], ◌∷◌, Option, none, some, nat_eq, ◌==◌, nat_beq, if◌then◌else◌, Map, lookup, insert, or_zero,
  length, arith,
}
use blbchain.Pbft.Node.{
  ViewChangeData, view_change_data_eq, ViewChangeMsg, NewViewMsg, Node, Sent, view_changes,
  new_views,
}

unfoldable pub contains : List ℕ → ℕ → Bool
contains [] n = false
contains (x ∷ xs) n = nat_beq x n || contains xs n

unfoldable pub add_member : ℕ → List ℕ → List ℕ
unfolding contains
add_member n xs = if contains xs n then xs else n ∷ xs

unfoldable pub members : ViewChangeData → Map ViewChangeData (List ℕ) → List ℕ
unfolding lookup
members k m = or_zero (lookup k m) []

unfoldable pub add_to :
    ViewChangeData → ℕ → Map ViewChangeData (List ℕ) → Map ViewChangeData (List ℕ)
unfolding add_member members insert
add_to k n m = insert k (add_member n (members k m)) m

module _ {C : Type 0} where
  -- The view is an int32 that stays below the number of nodes, so that `+ 1` does not wrap.
  unfoldable pub next_view_of : Node C → ℕ
  next_view_of p = (p.view + 1) % p.node_nums

  unfoldable pub view_change_propose : Node C → Node C × List Sent
  unfolding next_view_of
  view_change_propose p =
      let vcmsg : ViewChangeMsg = record {
        cur_view = p.view;
        next_view = next_view_of p;
        seq_id = p.sequence_id;
        from_node = p.node_id;
      } in
      (record p { pbft_stage = 5 }, view_changes vcmsg ∷ [])

  unfoldable pub handle_view_change_msg : ViewChangeMsg → Node C → Node C × List Sent
  unfolding add_to members next_view_of
  handle_view_change_msg m p =
      let vc_data : ViewChangeData = record { next_view = m.next_view; seq_id = m.seq_id } in
      let q = record p { view_change_map = add_to vc_data m.from_node p.view_change_map } in
      let nvmsg : NewViewMsg = record {
        cur_view = p.view;
        next_view = next_view_of p;
        new_seq_id = p.sequence_id;
        from_node = p.node_id;
      } in
      (
        q,
        if nat_beq (length (members vc_data q.view_change_map)) (2 * p.malicious_nums + 1)
            then new_views nvmsg ∷ []
            else [],
      )

  unfoldable pub handle_new_view_msg : ℕ → NewViewMsg → Node C → Node C
  unfolding add_to members
  handle_new_view_msg now m p =
      let vc_data : ViewChangeData = record { next_view = m.next_view; seq_id = m.new_seq_id } in
      let q = record p { new_view_map = add_to vc_data m.from_node p.new_view_map } in
      if nat_beq (length (members vc_data q.new_view_map)) (2 * p.malicious_nums + 1)
      then record q {
        view = m.next_view;
        sequence_id = m.new_seq_id;
        pbft_stage = 1;
        last_commit_time = now;
      }
      else q
