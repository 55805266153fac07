-- ===== src/Scheduler/Delay.antt =====
-- The random delay of internal/scheduler/scheduler.go.
use mtlogin.Prelude.{ℕ, ◌≤◌, ◌-◌, arith}
use mtlogin.Scheduler.{Config, sample_delay}

-- A share of a range is at most the range, so a delay is at least `min_delay`, and it is at most
-- `max_delay`, where that is not below `min_delay`.
pub delay_bounds :
    (share : ℕ → ℕ) (cfg : Config)
    → ((d : ℕ) → share d ≤ d)
    → cfg.min_delay ≤ cfg.max_delay
    → (cfg.min_delay ≤ sample_delay share cfg) × (sample_delay share cfg ≤ cfg.max_delay)
unfolding sample_delay
delay_bounds share cfg below h = ground (arith, below (cfg.max_delay - cfg.min_delay))
