-- ===== src/Stop.antt =====
-- supervisor/signal/supervisorStopModule.go and the calls of it in supervisor/supervisor.go and the
-- committees: when the supervisor stops the nodes. The lock makes each method one step; the
-- threshold, three times the number of shards, is not negative.
pub mod Silence
mod Examples
use blbchain.Base.{ℕ, ◌+◌, ◌*◌, Bool, List, [], ◌∷◌, leb, nat_beq, if◌then◌else◌}
use blbchain.Relay.{BlockInfoMsg}

pub record StopSignal : Type 0 where
  pub stop_gap : ℕ
  pub stop_threshold : ℕ

unfoldable pub new_stop_signal : ℕ → StopSignal
new_stop_signal threshold = record { stop_gap = 0; stop_threshold = threshold }

unfoldable pub stop_gap_inc : StopSignal → StopSignal
stop_gap_inc ss = record ss { stop_gap = ss.stop_gap + 1 }

unfoldable pub stop_gap_reset : StopSignal → StopSignal
stop_gap_reset ss = record ss { stop_gap = 0 }

unfoldable pub gap_enough : StopSignal → Bool
gap_enough ss = leb ss.stop_threshold ss.stop_gap

-- The start of `handleBlockInfos`.
unfoldable pub handle_block_infos : BlockInfoMsg → StopSignal → StopSignal
unfolding stop_gap_inc stop_gap_reset
handle_block_infos bim ss =
    if nat_beq bim.block_body_length 0 then stop_gap_inc ss else stop_gap_reset ss

-- What touches the signal: a report of a block, or a batch of transactions that a committee sends.
pub data Signalled : Type 0 where
  reported : BlockInfoMsg → Signalled
  batch_sent : Signalled

unfoldable pub signal_step : Signalled → StopSignal → StopSignal
unfolding handle_block_infos stop_gap_reset
signal_step (reported bim) ss = handle_block_infos bim ss
signal_step batch_sent ss = stop_gap_reset ss

unfoldable pub signal_run : List Signalled → StopSignal → StopSignal
unfolding signal_step
signal_run [] ss = ss
signal_run (e ∷ es) ss = signal_run es (signal_step e ss)
