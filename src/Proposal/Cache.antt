-- ===== src/Proposal/Cache.antt =====
-- The cache of bodies, and the answer for those that are missing.
use blbchain.Base.{
  ◌≡◌, refl, sym, ap, ◌∙◌, subst, inl, inr, some, List, [], ◌∷◌, Bytes, bytes_eq, ◌==◌, lookup,
  insert, lookup-insert_self, lookup-insert_ne, Bool-cases, Option-cases, All,
}
use blbchain.Proposal.{Codec, Bodies, cache_bodies, missing_keys, answer_missing}

abbrev pub Has : Bodies → Bytes → Type 0
Has bodies k = (v : Bytes) × (lookup k bodies ≡ some v)

module _ (codec : Codec) where
  -- Each body stands under its own key.
  abbrev pub IsKeyed : Bodies → Type 0
  IsKeyed bodies = (k v : Bytes) → lookup k bodies ≡ some v → codec.body_key v ≡ k

  insert-IsKeyed :
      (b : Bytes) (bodies : Bodies) → IsKeyed bodies → IsKeyed (insert (codec.body_key b) b bodies)
  insert-IsKeyed b bodies h k v e = elim (Bool-cases (codec.body_key b == k)) [
    | inl t ↦
        let same : codec.body_key b ≡ k = (bytes_eq.equals_iff _ _).0 t in
        ap codec.body_key (
          some_inj (
            sym (subst (λ j. lookup j (insert (codec.body_key b) b bodies) ≡ some v) (sym same) e)
            ∙ lookup-insert_self (codec.body_key b) b bodies))
        ∙ same
    | inr f ↦ h k v (sym (lookup-insert_ne (codec.body_key b) k b bodies f) ∙ e)
  ]
    where
      some_inj : {x y : Bytes} → some x ≡ some y → x ≡ y
      some_inj p = cc

  pub cache_bodies-IsKeyed :
      (bs : List Bytes) (bodies : Bodies) → IsKeyed bodies → IsKeyed (cache_bodies codec bs bodies)
  unfolding cache_bodies
  cache_bodies-IsKeyed [] bodies h = h
  cache_bodies-IsKeyed (b ∷ bs) bodies h =
      cache_bodies-IsKeyed bs (insert (codec.body_key b) b bodies) (insert-IsKeyed b bodies h)

  insert-Has :
      (b k : Bytes) (bodies : Bodies) → Has bodies k → Has (insert (codec.body_key b) b bodies) k
  insert-Has b k bodies (v, e) = elim (Bool-cases (codec.body_key b == k)) [
    | inl t ↦ (
      b,
      ap (λ j. lookup j (insert (codec.body_key b) b bodies)) (sym ((bytes_eq.equals_iff _ _).0 t))
          ∙ lookup-insert_self (codec.body_key b) b bodies,
    )
    | inr f ↦ (v, lookup-insert_ne (codec.body_key b) k b bodies f ∙ e)
  ]

  -- What is cached stays cached.
  pub cache_bodies-Has :
      (bs : List Bytes) (k : Bytes) (bodies : Bodies)
      → Has bodies k
      → Has (cache_bodies codec bs bodies) k
  unfolding cache_bodies
  cache_bodies-Has [] k bodies h = h
  cache_bodies-Has (b ∷ bs) k bodies h = cache_bodies-Has bs k _ (insert-Has b k bodies h)

  -- Each body that is cached can be found under its key.
  pub cache_bodies-All :
      (bs : List Bytes) (bodies : Bodies)
      → All (λ b. Has (cache_bodies codec bs bodies) (codec.body_key b)) bs
  unfolding cache_bodies
  cache_bodies-All [] bodies = tt
  cache_bodies-All (b ∷ bs) bodies = (
    cache_bodies-Has bs (codec.body_key b) _ (b, lookup-insert_self (codec.body_key b) b bodies),
    cache_bodies-All bs (insert (codec.body_key b) b bodies),
  )

  -- A leader that has all the bodies of some keys answers for the missing ones, and nothing is missing
  -- in a cache that holds what the replica had when it asked and then receives the answer.
  pub answer_missing-missing_keys :
      (ks : List Bytes) (leader bodies : Bodies)
      → IsKeyed leader
      → All (Has leader) ks
      → (bs : List Bytes) × (answer_missing (missing_keys ks bodies) leader ≡ some bs)
        × ((start : Bodies)
            → ((k : Bytes) → Has bodies k → Has start k)
            → All (Has (cache_bodies codec bs start)) ks)
  unfolding missing_keys answer_missing cache_bodies
  answer_missing-missing_keys [] leader bodies keyed have = ([], refl, λ start more. tt)
  answer_missing-missing_keys (k ∷ ks) leader bodies keyed ((v, ev), have) =
      let (bs, e, all) = answer_missing-missing_keys ks leader bodies keyed have in
      elim (Option-cases (lookup k bodies)) [
        | inl en ↦ (
          v ∷ bs,
          rw (en, ev, e) refl,
          λ start more. (
            cache_bodies-Has bs k _ (
              v,
              ap (λ j. lookup j (insert (codec.body_key v) v start)) (sym (keyed k v ev))
                  ∙ lookup-insert_self (codec.body_key v) v start,
            ),
            all (insert (codec.body_key v) v start) (λ j h. insert-Has v j start (more j h)),
          ),
        )
        | inr (w, ew) ↦ (
          bs,
          rw ew e,
          λ start more. (cache_bodies-Has bs k start (more k (w, ew)), all start more),
        )
      ]
