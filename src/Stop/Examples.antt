-- ===== src/Stop/Examples.antt =====
-- Two empty reports after a batch and a report of a block with transactions, for a threshold of two.
use blbchain.Base.{ℕ, ◌≡◌, refl, ◌↔◌, true, [], ◌∷◌, List}
use blbchain.Stop.{
  Signalled, reported, batch_sent, new_stop_signal, gap_enough, signal_run, signal_step,
  handle_block_infos, stop_gap_inc, stop_gap_reset,
}
use blbchain.Stop.Silence.{EndsEmpty, gap_enough-EndsEmpty}

abbrev report : ℕ → Signalled
report n = reported (record {
  block_body_length = n;
  inner_shard_txs = [];
  relay1_txs = [];
  relay2_txs = [];
  sender_shard_id = 0;
})

abbrev events : List Signalled
events = report 0 ∷ batch_sent ∷ report 3 ∷ report 0 ∷ report 0 ∷ []

enough : gap_enough (signal_run events (new_stop_signal 2)) ≡ true
unfolding gap_enough signal_run signal_step handle_block_infos stop_gap_inc stop_gap_reset
    new_stop_signal
enough = refl

gap_enough-EndsEmpty_example :
    (gap_enough (signal_run events (new_stop_signal 2)) ≡ true) ↔ EndsEmpty 2 events
gap_enough-EndsEmpty_example = gap_enough-EndsEmpty 2 events
