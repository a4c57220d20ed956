-- ===== src/Stop/Silence.antt =====
-- When the stop signal says that it is enough.
use blbchain.Base.{
  ℕ, ◌+◌, ◌≤◌, ◌≡◌, refl, ap, ◌∙◌, inl, inr, ◌⊎◌, ◌↔◌, Bool, true, false, List, [], ◌∷◌, ◌++◌, leb,
  leb→le, nat_beq, Bool-cases, length, All, arith,
}
use blbchain.Stop.{
  StopSignal, new_stop_signal, stop_gap_inc, stop_gap_reset, gap_enough, handle_block_infos,
  Signalled, reported, batch_sent, signal_step, signal_run,
}

-- Is it a report of a block without transactions?
abbrev pub is_empty_report : Signalled → Bool
is_empty_report (reported bim) = nat_beq bim.block_body_length 0
is_empty_report batch_sent = false

abbrev pub IsEmptyReport : Signalled → Type 0
IsEmptyReport e = is_empty_report e ≡ true

stop_gap-raised :
    (e : Signalled) (ss : StopSignal)
    → is_empty_report e ≡ true
    → (signal_step e ss).stop_gap ≡ ss.stop_gap + 1
unfolding signal_step handle_block_infos stop_gap_inc
stop_gap-raised (reported bim) ss h = rw h refl
stop_gap-raised batch_sent ss h = cc

stop_gap-cleared :
    (e : Signalled) (ss : StopSignal) → is_empty_report e ≡ false → (signal_step e ss).stop_gap ≡ 0
unfolding signal_step handle_block_infos stop_gap_reset
stop_gap-cleared (reported bim) ss h = rw h refl
stop_gap-cleared batch_sent ss h = refl

-- The events end with that many empty reports in a row.
abbrev pub EndsEmpty : ℕ → List Signalled → Type 0
EndsEmpty n es =
    (xs : List Signalled) × (ys : List Signalled) × (es ≡ xs ++ ys)
    × (n ≤ length ys)
    × All IsEmptyReport ys

signal_run-EndsEmpty :
    (n : ℕ) (es : List Signalled) (ss : StopSignal)
    → n ≤ (signal_run es ss).stop_gap
    → EndsEmpty n es ⊎ (All IsEmptyReport es × (n ≤ ss.stop_gap + length es))
unfolding signal_run stop_gap_inc stop_gap_reset
signal_run-EndsEmpty n [] ss h = inr (tt, omega (arith, h))
signal_run-EndsEmpty n (e ∷ es) ss h = elim (signal_run-EndsEmpty n es (signal_step e ss) h) [
  | inl (xs, ys, split, long, empty) ↦ inl (e ∷ xs, ys, ap (◌∷◌ e) split, long, empty)
  | inr (empty, long) ↦ elim (Bool-cases (is_empty_report e)) [
    | inl t ↦ inr ((t, empty), omega (arith, long, stop_gap-raised e ss t))
    | inr f ↦ inl (e ∷ [], es, refl, omega (arith, long, stop_gap-cleared e ss f), empty)
  ]
]

signal_run-gap :
    (ys : List Signalled) (ss : StopSignal)
    → All IsEmptyReport ys
    → (signal_run ys ss).stop_gap ≡ ss.stop_gap + length ys
unfolding signal_run stop_gap_inc
signal_run-gap [] ss h = omega arith
signal_run-gap (e ∷ es) ss (first, others) =
    omega (arith, stop_gap-raised e ss first, signal_run-gap es (signal_step e ss) others)

signal_run-append :
    (xs ys : List Signalled) (ss : StopSignal)
    → signal_run (xs ++ ys) ss ≡ signal_run ys (signal_run xs ss)
unfolding signal_run
signal_run-append [] ys ss = refl
signal_run-append (x ∷ xs) ys ss = signal_run-append xs ys (signal_step x ss)

signal_run-threshold :
    (es : List Signalled) (ss : StopSignal) → (signal_run es ss).stop_threshold ≡ ss.stop_threshold
unfolding signal_run signal_step handle_block_infos stop_gap_inc stop_gap_reset
signal_run-threshold [] ss = refl
signal_run-threshold (e ∷ es) ss = signal_run-threshold es (signal_step e ss) ∙ step_threshold e
  where
    step_threshold : (e : Signalled) → (signal_step e ss).stop_threshold ≡ ss.stop_threshold
    step_threshold (reported bim) = elim (Bool-cases (nat_beq bim.block_body_length 0)) [
      | inl t ↦ rw t refl
      | inr f ↦ rw f refl
    ]
    step_threshold batch_sent = refl

le→leb : (a b : ℕ) → a ≤ b → leb a b ≡ true
le→leb a b h = ground arith

-- From the supervisor's start on, with reports of blocks and batches sent in any order, the signal says
-- that it is enough exactly when the last events are reports of empty blocks, at least as many in a
-- row as the threshold.
pub gap_enough-EndsEmpty :
    (threshold : ℕ) (es : List Signalled)
    → (gap_enough (signal_run es (new_stop_signal threshold)) ≡ true) ↔ EndsEmpty threshold es
unfolding gap_enough new_stop_signal
gap_enough-EndsEmpty threshold es = (to, from)
  where
    start : StopSignal
    start = record { stop_gap = 0; stop_threshold = threshold }

    to : gap_enough (signal_run es start) ≡ true → EndsEmpty threshold es
    to h =
        elim (signal_run-EndsEmpty threshold es start
          (omega (arith, leb→le _ _ h, signal_run-threshold es start))) [
            | inl ends ↦ ends
            | inr (empty, long) ↦ ([], es, refl, omega (arith, long), empty)
          ]

    from : EndsEmpty threshold es → gap_enough (signal_run es start) ≡ true
    from (xs, ys, split, long, empty) = le→leb _ _ (
        omega (
          arith,
          signal_run-threshold es start,
          long,
          ap (λ l. (signal_run l start).stop_gap) split,
          ap (λ (s : StopSignal). s.stop_gap) (signal_run-append xs ys start),
          signal_run-gap ys (signal_run xs start) empty,
        ))
