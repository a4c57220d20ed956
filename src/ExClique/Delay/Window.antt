-- ===== src/ExClique/Delay/Window.antt =====
-- When a node that is not in turn proposes.
use blbchain.Base.{ℕ, ◌-◌, ◌≤◌, ◌<◌, ◌≡◌, Bool, true, arith}
use blbchain.ExClique.Delay.{DelayManager, get_random_delay, should_propose}

-- A node that is not in turn proposes only from beta on and before the end of the window, so not at
-- all where beta has grown to the window; the random delay then is beta, and else lies from beta on
-- before the end of the window. `rand.Int63n` gives a number below its argument.
pub should_propose_window :
    (chance : ℕ → ℕ → Bool) (draw : ℕ → ℕ) (since : ℕ) (dm : DelayManager)
    → ((n : ℕ) → 0 < n → draw n < n)
    → (should_propose chance since dm ≡ true → (dm.beta ≤ since) × (since < dm.wait_window))
      × (dm.beta ≤ get_random_delay draw dm)
      × (dm.beta < dm.wait_window → get_random_delay draw dm < dm.wait_window)
      × (dm.wait_window ≤ dm.beta → get_random_delay draw dm ≡ dm.beta)
unfolding should_propose get_random_delay
should_propose_window chance draw since dm drawn = (
  λ h. ground arith,
  ground (arith, drawn (dm.wait_window - dm.beta)),
  λ h. ground (arith, drawn (dm.wait_window - dm.beta)),
  λ h. ground arith,
)
