-- ===== src/Runtime/Alone.antt =====
-- What a call of internal/runtime/runtime.go does where no other call takes a step in between.
use mtlogin.Prelude.{ℕ, zero, suc, Bool, true, false, ◌≡◌, Option, none, some, List, [], ◌∷◌, arith}
use mtlogin.Errors.{GoError, sentinel, canceled}
use mtlogin.Domain.Codes.{plain, scheduler_busy, runtime_service_not_published}
use mtlogin.Runtime.{Runtime, Action, step, steps, advance}
use mtlogin.Runtime.{idle, try_returned, stop_returned, try_run, stop, proceed}

abbrev first_error : List (Option GoError) → Option GoError
first_error [] = none
first_error (some e ∷ rest) = some e
first_error (none ∷ rest) = first_error rest

abbrev refused_if : Bool → GoError → Option GoError
refused_if true e = some e
refused_if false e = none

abbrev held : Option ℕ → Bool
held none = false
held (some i) = true

module _ {V : Type 0} where
  abbrev repeat : ℕ → Action V → List (Action V)
  repeat zero a = []
  repeat (suc n) a = a ∷ repeat n a

  -- A call of `TryRun`: eight steps are the most that it takes.
  abbrev pub whole_try_run : ℕ → Option GoError → Option GoError → List (Action V)
  whole_try_run i delay_err result = try_run i ∷ repeat 8 (proceed i delay_err result)

  -- A call of `Stop`: four steps are the most that it takes.
  abbrev pub whole_stop : ℕ → List (Action V)
  whole_stop i = stop i ∷ repeat 4 (proceed i none none)

  abbrev missing : Option V → Bool
  missing none = true
  missing (some v) = false

  -- The first of the reasons not to run, or else the result of the run.
  abbrev pub expected : Option GoError → Option GoError → Runtime V → Option GoError
  expected delay_err result s = first_error (
      refused_if s.stopped (sentinel canceled)
      ∷ delay_err
      ∷ s.root_err
      ∷ refused_if (held s.lock) (plain scheduler_busy)
      ∷ refused_if (missing s.service) (plain runtime_service_not_published)
      ∷ result
      ∷ [])

  -- A call of `TryRun` that is not interleaved with others returns the first that there is of: that
  -- the runtime is stopped, the error of the context it was given, that of the runtime's context,
  -- that a run is going on, that no service is published, and the result of its own run. It leaves
  -- the lock, the service, the context and the stop flag as they were.
  pub try_run_alone :
      (i : ℕ) (delay_err result : Option GoError) (s : Runtime V)
      → s.pcs i ≡ idle
      → let t = steps (whole_try_run i delay_err result) s in
        (t.pcs i ≡ try_returned (expected delay_err result s))
        × (t.lock ≡ s.lock)
        × (t.service ≡ s.service)
        × (t.root_err ≡ s.root_err)
        × (t.stopped ≡ s.stopped)
  unfolding steps step advance
  try_run_alone i d r s h = ground arith

  -- A call of `Stop` while no run goes on returns, if it is not interleaved with others, and leaves
  -- the runtime stopped and the lock free.
  pub stop_alone :
      (i : ℕ) (s : Runtime V)
      → s.pcs i ≡ idle
      → s.lock ≡ none
      → let t = steps (whole_stop i) s in
        (t.pcs i ≡ stop_returned) × (t.stopped ≡ true) × (t.lock ≡ none)
  unfolding steps step advance
  stop_alone i s h f = ground arith
