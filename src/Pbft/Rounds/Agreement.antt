-- ===== src/Pbft/Rounds/Agreement.antt =====
-- The commits that two nodes of a shard send in one round.
use blbchain.Base.{
  ℕ, ◌+◌, ◌*◌, ◌≤◌, ◌≡◌, refl, ◌⊎◌, inl, inr, Bool, true, false, List, [], ◌∷◌, Bytes, length, All,
  All-map, Bool-cases, arith,
}
use blbchain.Pbft.Votes.{Peer, Distinct, recorded, voters, same_node}
use blbchain.Pbft.Quorum.{IsMember, common, length-common}
use blbchain.Pbft.Node.{Request, Node, ExtraOp, new_pbft_node}
use blbchain.Pbft.Handlers.{commit_broadcast}
use blbchain.Pbft.Rounds.{Reach}
use blbchain.Pbft.Rounds.Invariant.{Reach-IsCounted}

recorded-common :
    (ys xs : List Peer) (x : Peer) → recorded xs x ≡ false → recorded (common ys xs) x ≡ false
unfolding recorded
recorded-common ys [] x h = refl
recorded-common ys (y ∷ xs) x h = elim (Bool-cases (recorded ys y)) [
  | inl t ↦ rw t (ground (arith, recorded-common ys xs x))
  | inr f ↦ rw f (ground (arith, recorded-common ys xs x))
]

Distinct-common : (ys xs : List Peer) → Distinct xs → Distinct (common ys xs)
Distinct-common ys [] d = tt
Distinct-common ys (x ∷ xs) (fresh, d) = elim (Bool-cases (recorded ys x)) [
  | inl t ↦ rw t (recorded-common ys xs x fresh, Distinct-common ys xs d)
  | inr f ↦ rw f (Distinct-common ys xs d)
]

-- Every node of the common part is recorded in both.
abbrev InBoth : List Peer → List Peer → Peer → Type 0
InBoth xs ys x = (recorded xs x ≡ true) × (recorded ys x ≡ true)

same_node_refl : (x : Peer) → same_node x x ≡ true
same_node_refl x = ground arith

InBoth-weaken : (xs ys : List Peer) (y x : Peer) → InBoth xs ys x → InBoth (y ∷ xs) ys x
unfolding recorded
InBoth-weaken xs ys y x (h, k) = (ground arith, k)

common-InBoth : (xs ys : List Peer) → All (InBoth xs ys) (common ys xs)
unfolding recorded
common-InBoth [] ys = tt
common-InBoth (x ∷ xs) ys =
    let rest =
      All-map (InBoth xs ys) (InBoth (x ∷ xs) ys) (InBoth-weaken xs ys x) (common ys xs)
        (common-InBoth xs ys) in
    elim (Bool-cases (recorded ys x)) [
      | inl t ↦ rw t (((ground (arith, same_node_refl x)), t), rest)
      | inr f ↦ rw f rest
    ]

every_or_one :
    (test : Peer → Bool) (P : Peer → Type 0) (xs : List Peer)
    → All P xs
    → All (λ x. test x ≡ true) xs ⊎ ((x : Peer) × (test x ≡ false) × P x)
every_or_one test P [] h = inl tt
every_or_one test P (x ∷ xs) (p, h) = elim (Bool-cases (test x)) [
  | inr f ↦ inr (x, f, p)
  | inl t ↦ elim (every_or_one test P xs h) [ inl all ↦ inl (t, all) | inr one ↦ inr one ]
]

module _ (f : ℕ) (faulty : Peer → Bool) where
  -- Two sets of 2f + 1 distinct nodes have a node in common that is not faulty.
  honest_voter :
      (shard n : ℕ) (xs ys : List Peer)
      → n ≤ 3 * f + 1
      → ((zs : List Peer) → Distinct zs → All (λ x. faulty x ≡ true) zs → length zs ≤ f)
      → Distinct xs
      → Distinct ys
      → All (IsMember shard n) xs
      → All (IsMember shard n) ys
      → 2 * f + 1 ≤ length xs
      → 2 * f + 1 ≤ length ys
      → (x : Peer) × (faulty x ≡ false) × InBoth xs ys x
  honest_voter shard n xs ys size few dx dy mx my qx qy =
      elim (every_or_one faulty (InBoth xs ys) (common ys xs) (common-InBoth xs ys)) [
        | inr one ↦ one
        | inl all ↦ absurd (
            omega (
              arith,
              few (common ys xs) (Distinct-common ys xs dx) all,
              length-common shard n xs ys dx dy mx my,
            ))
      ]

module _ {C : Type 0} (ops : ExtraOp C) (digest : Request → Bytes) where
  -- Agreement in a round. Two nodes of a shard of at most 3f + 1 nodes have run from their start; all
  -- voters that they have counted are nodes of the shard, no more than f distinct nodes are faulty,
  -- and a node that is not faulty is counted by the two for one digest only. If both have sent a
  -- commit, then they have sent it for the same digest.
  pub Reach-agree :
      (f shard n : ℕ) (faulty : Peer → Bool) (d e : Bytes) (a b : Peer) (chain chain' : C)
      (number number' nodes now now' : ℕ) {p q : Node C}
      → Reach ops digest (new_pbft_node a chain number nodes now) p
      → Reach ops digest (new_pbft_node b chain' number' nodes now') q
      → p.malicious_nums ≡ f
      → q.malicious_nums ≡ f
      → n ≤ 3 * f + 1
      → All (IsMember shard n) (voters d p.cnt_prepare_confirm)
      → All (IsMember shard n) (voters e q.cnt_prepare_confirm)
      → ((zs : List Peer) → Distinct zs → All (λ x. faulty x ≡ true) zs → length zs ≤ f)
      → ((x : Peer)
          → faulty x ≡ false
          → recorded (voters d p.cnt_prepare_confirm) x ≡ true
          → recorded (voters e q.cnt_prepare_confirm) x ≡ true
          → d ≡ e)
      → commit_broadcast d p ≡ true
      → commit_broadcast e q ≡ true
      → d ≡ e
  unfolding commit_broadcast
  Reach-agree f shard n faulty d e a b chain chain' number number' nodes now now' {p} {q} rp rq fp
        fq size mp mq few once sent sent' =
      let v = Reach-IsCounted ops digest a chain number nodes now rp in
      let w = Reach-IsCounted ops digest b chain' number' nodes now' rq in
      let (x, honest, (in_p, in_q)) =
        honest_voter f faulty shard n (voters d p.cnt_prepare_confirm)
          (voters e q.cnt_prepare_confirm) size few (v.prepare_voters d) (w.prepare_voters e) mp mq
          (omega (arith, v.quorum d sent)) (omega (arith, w.quorum e sent')) in
      once x honest in_p in_q
