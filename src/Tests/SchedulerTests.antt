-- ===== src/Tests/SchedulerTests.antt =====
-- internal/scheduler at concrete inputs.
use mtlogin.Prelude.{ℕ, ◌≡◌, refl, true, false, none, List, [], ◌∷◌}
use mtlogin.Scheduler.{
  Config, Action, new, start, step, steps, advance, sample_delay, all_ended, start_call, tick,
  timer, cancellation, run_end, stop,
}
use mtlogin.Scheduler.Stopping.{stop_ends}

abbrev config : Config
config = record { min_delay = 2; max_delay = 5 }

abbrev half : ℕ → ℕ
half d = 0

-- Two jobs start; `Stop` begins, one job is dropped, the other runs to its end, and `Stop` returns.
abbrev stopped : List Action
stopped =
    start_call false none
    ∷ tick half
    ∷ tick half
    ∷ timer 0
    ∷ stop 0
    ∷ stop 0
    ∷ cancellation 1
    ∷ stop 0
    ∷ run_end 0
    ∷ stop 0
    ∷ stop 0
    ∷ []

abbrev begun : List Action
begun = start_call false none ∷ tick half ∷ stop 0 ∷ stop 0 ∷ []

abbrev again : List Action
again = start_call false none ∷ tick half ∷ []

stop_ends_example : all_ended (steps again (steps stopped (new config))).jobs ≡ true
unfolding steps step start advance sample_delay
stop_ends_example = stop_ends config stopped again 0 refl
