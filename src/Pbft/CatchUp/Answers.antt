-- ===== src/Pbft/CatchUp/Answers.antt =====
-- What the main node answers to a node that is behind.
use native.Mathlib.Nat.{add-zero}
use blbchain.Base.{
  ℕ, zero, suc, ◌+◌, ◌-◌, ◌≤◌, ◌<◌, ◌≡◌, refl, sym, ap, ◌⊎◌, inl, inr, List, ◌∷◌, none, some,
  Option-cases, length, get_elem?, arith,
}
use blbchain.Base.{Bytes, true, false, [], Bool-cases}
use blbchain.Pbft.Node.{Request, RequestOldMessage, SendOldMessage, Node, ExtraOp, answers, done}
use blbchain.Pbft.Handlers.{is_main}
use blbchain.Pbft.CatchUp.{request_at, old_requests, handle_request_old_seq}

-- The answer to a request for `n` heights has at most `n` requests; the one at each place is the one
-- stored for the height at that place, and where the answer ends early the next height has none.
pub record Answers {C : Type 0} (n height : ℕ) (p : Node C) (rs : List Request) : Type 0 where
  pub bounded : length rs ≤ n
  pub stored : (i : ℕ) → i < length rs → get_elem? rs i ≡ request_at (height + i) p
  pub maximal : (length rs ≡ n) ⊎ (request_at (height + length rs) p ≡ none)

pub old_requests-Answers :
    {C : Type 0} (n height : ℕ) (p : Node C) → Answers n height p (old_requests n height p)
unfolding old_requests
old_requests-Answers zero height p = record {
  bounded = omega arith;
  stored = λ i h. elim h [ ];
  maximal = inl refl;
}
old_requests-Answers (suc n) height p = elim (Option-cases (request_at height p)) [
  | inl e ↦
      rw (e, old_requests)
        (record {
          bounded = omega arith;
          stored = λ i h. elim h [ ];
          maximal = inr (rw add-zero e);
        })
  | inr (r, e) ↦ rw (e, old_requests) (more (old_requests-Answers n (height + 1) p) r e)
]
  where
    more :
        Answers n (height + 1) p (old_requests n (height + 1) p)
        → (r : Request) → request_at height p ≡ some r
        → Answers (suc n) height p (r ∷ old_requests n (height + 1) p)
    more a r e = record {
      bounded = omega (arith, a.bounded);
      stored = λ i h. place i h;
      maximal = elim a.maximal [
        | inl all ↦ inl (ap suc all)
        | inr early ↦ inr (rw (shift (length (old_requests n (height + 1) p))) early)
      ];
    }
      where
        shift : (i : ℕ) → height + suc i ≡ height + 1 + i
        shift i = omega arith

        place :
            (i : ℕ)
            → i < suc (length (old_requests n (height + 1) p))
            → get_elem? (r ∷ old_requests n (height + 1) p) i ≡ request_at (height + i) p
        place zero h = rw add-zero (sym e)
        place (suc i) h = rw (shift i) (a.stored i (omega arith))

-- The requests of the heights from `first` to `last`: each is at its place, none is beyond `last`, and all are there
-- unless the next height has none.
pub record Holds {C : Type 0} (first last : ℕ) (p : Node C) (rs : List Request) : Type 0 where
  pub within : (i : ℕ) → i < length rs → first + i ≤ last
  pub stored : (i : ℕ) → i < length rs → get_elem? rs i ≡ request_at (first + i) p
  pub maximal : (last < first + length rs) ⊎ (request_at (first + length rs) p ≡ none)

module _ {C : Type 0} (ops : ExtraOp C) (digest : Request → Bytes) where
  -- Asked for the requests of a range of heights, a node that is not the main node does nothing. The main
  -- node sends one answer, which repeats the range and has at each place the request stored for the height
  -- at that place, none beyond the last height asked for, and all of them unless the height after the
  -- answer's last has none; it changes only what its committee's module does with the message.
  pub handle_request_old_seq-Holds :
      (m : RequestOldMessage) (p : Node C)
      → ((is_main p ≡ false) × (handle_request_old_seq ops digest m p ≡ done p []))
        ⊎ ((is_main p ≡ true)
            × ((sb : SendOldMessage) × (handle_request_old_seq ops digest m p
                  ≡ done (record p { cur_chain = ops.request_old m p.cur_chain }) (answers sb ∷ []))
                × (sb.seq_start_height ≡ m.seq_start_height)
                × (sb.seq_end_height ≡ m.seq_end_height)
                × Holds m.seq_start_height m.seq_end_height p sb.old_request))
  unfolding handle_request_old_seq
  handle_request_old_seq-Holds m p = elim (Bool-cases (is_main p)) [
    | inr f ↦ inl (f, rw f refl)
    | inl t ↦ inr (t, (answer, rw t refl, refl, refl, holds))
  ]
    where
      first : ℕ
      first = m.seq_start_height

      last : ℕ
      last = m.seq_end_height

      a : Answers (last + 1 - first) first p (old_requests (last + 1 - first) first p)
      a = old_requests-Answers (last + 1 - first) first p

      answer : SendOldMessage
      answer = record {
        seq_start_height = first;
        seq_end_height = last;
        old_request = old_requests (last + 1 - first) first p;
        sender_node = p.running_node;
      }

      holds : Holds first last p (old_requests (last + 1 - first) first p)
      holds = record {
        within = λ i h. omega (arith, h, a.bounded);
        stored = a.stored;
        maximal = elim a.maximal [ inl all ↦ inl (omega (arith, all)) | inr gone ↦ inr gone ];
      }
