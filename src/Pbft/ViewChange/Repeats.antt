-- ===== src/Pbft/ViewChange/Repeats.antt =====
-- A new-view message that comes again after its quorum.
use blbchain.Base.{
  ℕ, ◌+◌, ◌*◌, ◌≡◌, refl, sym, ap, ◌∙◌, true, List, [], nat_beq, nat_beq_iff, Map, or_zero,
  lookup-insert_self, length, arith,
}
use blbchain.Pbft.Node.{ViewChangeData, view_change_data_eq, NewViewMsg, Node}
use blbchain.Pbft.ViewChange.{contains, add_member, members, add_to, handle_new_view_msg}

contains-add_member : (n : ℕ) (xs : List ℕ) → contains (add_member n xs) n ≡ true
unfolding add_member contains
contains-add_member n xs = ground arith

add_member_twice : (n : ℕ) (xs : List ℕ) → add_member n (add_member n xs) ≡ add_member n xs
unfolding add_member
add_member_twice n xs = rw (contains-add_member n xs, add_member) refl

members-add_to :
    (k : ViewChangeData) (n : ℕ) (m : Map ViewChangeData (List ℕ))
    → members k (add_to k n m) ≡ add_member n (members k m)
unfolding members add_to
members-add_to k n m = ap (λ o. or_zero o []) (lookup-insert_self k _ m)

module _ {C : Type 0} where
  new_view_map-add_to :
      (now : ℕ) (m : NewViewMsg) (p : Node C)
      → (handle_new_view_msg now m p).new_view_map
        ≡ add_to
            (record { next_view = m.next_view; seq_id = m.new_seq_id })
            m.from_node
            p.new_view_map
  unfolding handle_new_view_msg
  new_view_map-add_to now m p = ground arith

  -- A new-view message that completed its quorum at some time takes effect again whenever it is
  -- repeated: if the node still has the set that the message left, then a copy sets the view and the
  -- sequence number back to the message's, however far the node has come since.
  pub new_view_repeats :
      (now : ℕ) (m : NewViewMsg) (p r : Node C)
      → r.new_view_map ≡ (handle_new_view_msg now m p).new_view_map
      → r.malicious_nums ≡ p.malicious_nums
      → length (
          members
            (record { next_view = m.next_view; seq_id = m.new_seq_id })
            (handle_new_view_msg now m p).new_view_map)
        ≡ 2 * p.malicious_nums + 1
      → ((handle_new_view_msg now m r).sequence_id ≡ m.new_seq_id)
        × ((handle_new_view_msg now m r).view ≡ m.next_view)
        × ((handle_new_view_msg now m r).pbft_stage ≡ 1)
  unfolding handle_new_view_msg
  new_view_repeats now m p r kept same full = rw again (refl, refl, refl)
    where
      k : ViewChangeData
      k = record { next_view = m.next_view; seq_id = m.new_seq_id }

      left : r.new_view_map ≡ add_to k m.from_node p.new_view_map
      left = kept ∙ new_view_map-add_to now m p

      still : members k (add_to k m.from_node r.new_view_map) ≡ members k r.new_view_map
      still =
          members-add_to k m.from_node r.new_view_map
          ∙ ap (add_member m.from_node) (ap (members k) left ∙ members-add_to k m.from_node _)
          ∙ add_member_twice m.from_node _
          ∙ sym (ap (members k) left ∙ members-add_to k m.from_node _)

      count : length (members k (add_to k m.from_node r.new_view_map)) ≡ 2 * r.malicious_nums + 1
      count = ap length (still ∙ ap (members k) kept) ∙ full ∙ ap (λ f. 2 * f + 1) (sym same)

      again :
          nat_beq
            (length (members k (add_to k m.from_node r.new_view_map)))
            (2 * r.malicious_nums + 1)
          ≡ true
      again = (nat_beq_iff _ _).1 count
