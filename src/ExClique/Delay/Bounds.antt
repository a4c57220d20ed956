-- ===== src/ExClique/Delay/Bounds.antt =====
-- The histories of delays, and beta between the measurements.
use blbchain.Base.{
  ◌∙◌, ℕ, zero, suc, ◌+◌, ◌*◌, ◌/◌, ◌^◌, lt→ltb, ◌≤◌, ◌<◌, ◌≡◌, refl, ◌⊎◌, inl, inr, ◌||◌, List, [],
  ◌∷◌, ◌++◌, ltb, nat_beq, Bool-cases, length, length-append, length-drop, drop, All, arith,
}
use native.Mathlib.Nat.{mod-eq_of_lt, mul-le-mul_right, le_refl, le-div_iff_mul-le}
use blbchain.ExClique.Delay.{
  DelayManager, wrap, quotient, sum_durations, average, update_beta, push, record_broadcast_time,
  record_verify_time, new_delay_manager,
}

-- The durations lie in a range.
abbrev pub Between : ℕ → ℕ → ℕ → Type 0
Between lo hi d = (lo ≤ d) × (d ≤ hi)

-- At most as many entries as the history's size, each in its range.
pub record IsBounded (low high lowest highest : ℕ) (dm : DelayManager) : Type 0 where
  pub kept : 0 < dm.history_size
  pub few_broadcasts : length dm.broadcast_hist ≤ dm.history_size
  pub few_verifies : length dm.verify_hist ≤ dm.history_size
  pub broadcasts : All (Between low high) dm.broadcast_hist
  pub verifies : All (Between lowest highest) dm.verify_hist

All-append : (P : ℕ → Type 0) (xs : List ℕ) (x : ℕ) → All P xs → P x → All P (xs ++ x ∷ [])
All-append P [] x h p = (p, tt)
All-append P (y ∷ xs) x h p = (h.0, All-append P xs x h.1 p)

All-drop : (P : ℕ → Type 0) (n : ℕ) (xs : List ℕ) → All P xs → All P (drop n xs)
All-drop P zero xs h = h
All-drop P (suc n) [] h = tt
All-drop P (suc n) (x ∷ xs) h = All-drop P n xs h.1

length-push :
    (limit d : ℕ) (hist : List ℕ)
    → length hist ≤ limit
    → 0 < limit
    → length (push limit d hist) ≤ limit
unfolding push
length-push limit d hist h some_kept =
    ground (arith, length-append hist (d ∷ []), length-drop 1 (hist ++ d ∷ []))

All-push :
    (P : ℕ → Type 0) (limit d : ℕ) (hist : List ℕ) → All P hist → P d → All P (push limit d hist)
unfolding push
All-push P limit d hist h p = elim (Bool-cases (ltb limit (length (hist ++ d ∷ [])))) [
  | inl t ↦ rw t (All-drop P 1 (hist ++ d ∷ []) (All-append P hist d h p))
  | inr f ↦ rw f (All-append P hist d h p)
]

-- Below 2 ^ 63 nothing wraps.
wrap-id : (n : ℕ) → n < 2 ^ 63 → wrap n ≡ n
wrap-id n h = mod-eq_of_lt (omega (arith, h))

quotient-id : (a n : ℕ) → a < 2 ^ 63 → quotient a n ≡ a / n
unfolding quotient
quotient-id a n h = rw (lt→ltb a (2 ^ 63) h) refl

sum_durations_bounds :
    (lo hi acc : ℕ) (ds : List ℕ)
    → All (Between lo hi) ds
    → acc + length ds * hi < 2 ^ 63
    → (acc + length ds * lo ≤ sum_durations acc ds) × (sum_durations acc ds ≤ acc + length ds * hi)
unfolding sum_durations
sum_durations_bounds lo hi acc [] h fits = (omega arith, omega arith)
sum_durations_bounds lo hi acc (d ∷ ds) h fits =
    let (low, high) = sum_durations_bounds lo hi (acc + d) ds h.1 (omega (arith, fits, h.0.1)) in
    rw (wrap-id (acc + d) (omega (arith, fits, h.0.1)))
      (omega (arith, low, h.0.0), omega (arith, high, h.0.1))

le_of_times : (a b n : ℕ) → 0 < n → a * n ≤ n * b → a ≤ b
le_of_times a b n h k = grind arith

average_bounds :
    (lo hi : ℕ) (ds : List ℕ)
    → 0 < length ds
    → length ds ≤ 10
    → All (Between lo hi) ds
    → 10 * hi < 2 ^ 63
    → Between lo hi (average ds)
unfolding average
average_bounds lo hi ds some_there ten h fits =
    let small : 0 + length ds * hi < 2 ^ 63 = omega (arith, fits, mul-le-mul_right hi ten) in
    let (low, high) = sum_durations_bounds lo hi 0 ds h small in
    rw (quotient-id (sum_durations 0 ds) (length ds) (omega (arith, high, small))) (
      (le-div_iff_mul-le some_there).1 (omega arith),
      le_of_times _ hi (length ds) some_there (
          omega
            (arith, (le-div_iff_mul-le some_there).0 (le_refl (sum_durations 0 ds / length ds)))),
    )

-- The range of beta that ranges of the measurements give.
abbrev pub beta_of : ℕ → ℕ → ℕ
beta_of broadcast verify = (broadcast + verify) * 12 / 10

-- Ten times the longest measurements, and 12 times the sum of two of them, are below 2 ^ 63.
abbrev pub AreShort : ℕ → ℕ → Type 0
AreShort high highest =
    (10 * high < 2 ^ 63) × (10 * highest < 2 ^ 63) × ((high + highest) * 12 < 2 ^ 63)

module _ (low high lowest highest initial window : ℕ) where
  abbrev BetaFits : DelayManager → Type 0
  BetaFits dm = (dm.beta ≡ initial) ⊎ Between (beta_of low lowest) (beta_of high highest) dm.beta

  update_beta-BetaFits :
      AreShort high highest
      → (dm : DelayManager) → IsBounded low high lowest highest dm
      → dm.history_size ≡ 10
      → BetaFits dm
      → BetaFits (update_beta dm)
  unfolding update_beta
  update_beta-BetaFits (short, shortest, both) dm v ten fits =
      elim (Bool-cases
        (nat_beq (length dm.broadcast_hist) 0 || nat_beq (length dm.verify_hist) 0)) [
          | inl t ↦ rw t fits
          | inr f ↦
              let (a, b) =
                average_bounds low high dm.broadcast_hist (ground (arith, f))
                  (omega (arith, v.few_broadcasts, ten)) v.broadcasts short in
              let (c, d) =
                average_bounds lowest highest dm.verify_hist (ground (arith, f))
                  (omega (arith, v.few_verifies, ten)) v.verifies shortest in
              let total = average dm.broadcast_hist + average dm.verify_hist in
              rw
                (
                  f,
                  wrap-id total (omega (arith, b, d, both)),
                  wrap-id (total * 12) (omega (arith, b, d, both)),
                  quotient-id (total * 12) 10 (omega (arith, b, d, both)),
                )
                (inr (omega arith, omega arith))
        ]

  update_beta-IsBounded :
      (dm : DelayManager)
      → IsBounded low high lowest highest dm
      → IsBounded low high lowest highest (update_beta dm)
        × ((update_beta dm).history_size ≡ dm.history_size)
  unfolding update_beta
  update_beta-IsBounded dm v =
      elim (Bool-cases
        (nat_beq (length dm.broadcast_hist) 0 || nat_beq (length dm.verify_hist) 0)) [
          | inl t ↦ rw t (v, refl)
          | inr f ↦ rw f (
            record {
              kept = v.kept;
              few_broadcasts = v.few_broadcasts;
              few_verifies = v.few_verifies;
              broadcasts = v.broadcasts;
              verifies = v.verifies;
            },
            refl,
          )
        ]

  -- The managers that measurements in their ranges lead to.
  pub data Measured : DelayManager → Type 0 where
    start : Measured (new_delay_manager initial window)
    broadcast :
        {dm : DelayManager} (d : ℕ)
        → Measured dm
        → Between low high d
        → Measured (record_broadcast_time d dm)
    verify :
        {dm : DelayManager} (d : ℕ)
        → Measured dm
        → Between lowest highest d
        → Measured (record_verify_time d dm)

  abbrev Fits : DelayManager → Type 0
  Fits dm = IsBounded low high lowest highest dm × (dm.history_size ≡ 10) × BetaFits dm

  update_beta-Fits : AreShort high highest → (dm : DelayManager) → Fits dm → Fits (update_beta dm)
  update_beta-Fits short dm (v, ten, fits) =
      let (v', same) = update_beta-IsBounded dm v in
      (v', same ∙ ten, update_beta-BetaFits short dm v ten fits)

  Measured-Fits : AreShort high highest → {dm : DelayManager} → Measured dm → Fits dm
  unfolding new_delay_manager record_broadcast_time record_verify_time
  Measured-Fits short start = (
    record {
      kept = omega arith;
      few_broadcasts = omega arith;
      few_verifies = omega arith;
      broadcasts = tt;
      verifies = tt;
    },
    refl,
    inl refl,
  )
  Measured-Fits short (broadcast {dm = dm} d past inside) =
      let (v, ten, fits) = Measured-Fits short past in
      update_beta-Fits short
        (record dm { broadcast_hist = push dm.history_size d dm.broadcast_hist })
        (
          record {
            kept = v.kept;
            few_broadcasts =
                length-push dm.history_size d dm.broadcast_hist v.few_broadcasts v.kept;
            few_verifies = v.few_verifies;
            broadcasts = All-push _ dm.history_size d dm.broadcast_hist v.broadcasts inside;
            verifies = v.verifies;
          },
          ten,
          fits,
        )
  Measured-Fits short (verify {dm = dm} d past inside) =
      let (v, ten, fits) = Measured-Fits short past in
      update_beta-Fits short (record dm { verify_hist = push dm.history_size d dm.verify_hist })
        (
          record {
            kept = v.kept;
            few_broadcasts = v.few_broadcasts;
            few_verifies = length-push dm.history_size d dm.verify_hist v.few_verifies v.kept;
            broadcasts = v.broadcasts;
            verifies = All-push _ dm.history_size d dm.verify_hist v.verifies inside;
          },
          ten,
          fits,
        )

  -- Broadcast and verification times are recorded, each in a range of its own, where ten times a range's
  -- upper end and 12 times the sum of both upper ends are below 2 ^ 63. Whatever times these are, the
  -- histories keep ten entries at most, and beta is the initial one or lies between 1.2 times the sum of
  -- the ranges' lower ends and 1.2 times the sum of their upper ends, both rounded down.
  pub Measured-beta :
      AreShort high highest
      → {dm : DelayManager} → Measured dm
      → (length dm.broadcast_hist ≤ 10)
        × (length dm.verify_hist ≤ 10)
        × ((dm.beta ≡ initial)
            ⊎ ((beta_of low lowest ≤ dm.beta) × (dm.beta ≤ beta_of high highest)))
  Measured-beta short past =
      let (v, ten, fits) = Measured-Fits short past in
      (omega (arith, v.few_broadcasts), omega (arith, v.few_verifies), fits)
