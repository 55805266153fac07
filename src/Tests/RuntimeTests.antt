-- ===== src/Tests/RuntimeTests.antt =====
-- internal/runtime at concrete inputs.
use mtlogin.Prelude.{ℕ, ◌≡◌, ◌≢◌, refl, true, none, some, List, [], ◌∷◌}
use mtlogin.Errors.{GoError, text}
use mtlogin.Runtime.{
  Runtime, Action, new, steps, step, advance, publish, try_run, proceed, running, try_returned,
  stop_returned,
}
use mtlogin.Runtime.Exclusion.{runs_exclusive, stop_final}
use mtlogin.Runtime.Alone.{whole_try_run, whole_stop, expected, try_run_alone, stop_alone}

abbrev call : ℕ
call = 0

abbrev fresh : Runtime ℕ
fresh = new none

-- Call 0 runs the service 7.
abbrev one_running : List (Action ℕ)
one_running =
    publish 7
    ∷ try_run 0
    ∷ proceed 0 none none
    ∷ proceed 0 none none
    ∷ proceed 0 none none
    ∷ proceed 0 none none
    ∷ proceed 0 none none
    ∷ proceed 0 none none
    ∷ []

runs_exclusive_example : call ≡ call
unfolding steps step advance
runs_exclusive_example = runs_exclusive none one_running call call 7 7 refl refl

stop_final_example :
    (steps (whole_try_run 1 none none) (steps (publish 7 ∷ whole_stop 0) fresh)).pcs 1 ≢ running 7
unfolding steps step advance
stop_final_example =
    stop_final none (publish 7 ∷ whole_stop 0) (whole_try_run 1 none none) 0 1 7 refl

abbrev published : Runtime ℕ
published = record (new none) { service = some 7 }

abbrev failed : GoError
failed = text "failed"

try_run_alone_example :
    let t = steps (whole_try_run 2 none (some failed)) published in
    (t.pcs 2 ≡ try_returned (expected none (some failed) published))
    × (t.lock ≡ published.lock)
    × (t.service ≡ published.service)
    × (t.root_err ≡ published.root_err)
    × (t.stopped ≡ published.stopped)
try_run_alone_example = try_run_alone 2 none (some failed) published refl

stop_alone_example :
    let t = steps (whole_stop 3) published in
    (t.pcs 3 ≡ stop_returned) × (t.stopped ≡ true) × (t.lock ≡ none)
stop_alone_example = stop_alone 3 published refl refl
