-- ===== src/ExClique/Delay.antt =====
-- consensus_shard/exclique/delay.go. A duration is its number of nanoseconds, an `int64`: the sums
-- and products of measured ones wrap, and a number from 2 ^ 63 on is a negative one. The comparisons
-- with the time since the last block are for a beta and a window that are not negative. `draw` is `rand.Int63n`, and `chance a b` tells
-- whether `rand.Float64()` falls below the float `a / b`. Statistics that are only logged are left
-- out.
pub mod Window
pub mod Bounds
use blbchain.Base.{
  ℕ, zero, suc, ◌+◌, ◌-◌, ◌*◌, ◌/◌, ◌%◌, ◌^◌, Bool, true, false, ◌||◌, List, [], ◌∷◌, ◌++◌, ltb,
  leb, nat_beq, if◌then◌else◌, length, drop,
}

pub record DelayManager : Type 0 where
  pub beta : ℕ
  pub wait_window : ℕ
  pub broadcast_hist : List ℕ
  pub verify_hist : List ℕ
  pub history_size : ℕ

unfoldable pub new_delay_manager : ℕ → ℕ → DelayManager
new_delay_manager initial_beta wait_window = record {
  beta = initial_beta;
  wait_window = wait_window;
  broadcast_hist = [];
  verify_hist = [];
  history_size = 10;
}

abbrev pub wrap : ℕ → ℕ
wrap n = n % 2 ^ 64

-- `a / n` of an `int64` by a positive number: it drops the fraction.
unfoldable pub quotient : ℕ → ℕ → ℕ
quotient a n = if ltb a (2 ^ 63) then a / n else wrap (2 ^ 64 - (2 ^ 64 - a) / n)

-- The loops that add a history up.
unfoldable pub sum_durations : ℕ → List ℕ → ℕ
sum_durations acc [] = acc
sum_durations acc (d ∷ ds) = sum_durations (wrap (acc + d)) ds

unfoldable pub average : List ℕ → ℕ
unfolding sum_durations quotient
average ds = quotient (sum_durations 0 ds) (length ds)

unfoldable pub update_beta : DelayManager → DelayManager
unfolding average quotient
update_beta dm =
    if nat_beq (length dm.broadcast_hist) 0 || nat_beq (length dm.verify_hist) 0
    then dm
    else record dm {
      beta = quotient (wrap (wrap (average dm.broadcast_hist + average dm.verify_hist) * 12)) 10;
    }

-- A history with a new entry, without its first one where it has become too long.
unfoldable pub push : ℕ → ℕ → List ℕ → List ℕ
push limit d hist =
    if ltb limit (length (hist ++ d ∷ [])) then drop 1 (hist ++ d ∷ []) else hist ++ d ∷ []

unfoldable pub record_broadcast_time : ℕ → DelayManager → DelayManager
unfolding update_beta push
record_broadcast_time duration dm =
    update_beta (record dm { broadcast_hist = push dm.history_size duration dm.broadcast_hist })

unfoldable pub record_verify_time : ℕ → DelayManager → DelayManager
unfolding update_beta push
record_verify_time duration dm =
    update_beta (record dm { verify_hist = push dm.history_size duration dm.verify_hist })

unfoldable pub set_wait_window : ℕ → DelayManager → DelayManager
set_wait_window w dm = record dm { wait_window = w }

unfoldable pub get_random_delay : (ℕ → ℕ) → DelayManager → ℕ
get_random_delay draw dm =
    if leb dm.wait_window dm.beta then dm.beta else dm.beta + draw (dm.wait_window - dm.beta)

unfoldable pub should_propose : (ℕ → ℕ → Bool) → ℕ → DelayManager → Bool
should_propose chance since dm =
    if ltb since dm.beta
    then false
    else if leb dm.wait_window since
    then false
    else chance (since - dm.beta) (dm.wait_window - dm.beta)
