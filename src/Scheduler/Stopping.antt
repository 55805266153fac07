-- ===== src/Scheduler/Stopping.antt =====
-- What holds of internal/scheduler/scheduler.go in every interleaving of calls and jobs.
use mtlogin.Prelude.{
  if◌then◌else◌, ◌⊎◌, ℕ, zero, suc, Bool, true, false, ◌≡◌, List, [], ◌∷◌, arith, refl,
}
use mtlogin.Scheduler.{
  Config, Scheduler, Job, StopPc, Action, idle, entered, draining, drained, following, returned,
  delayed, trying, ended, all_ended, change, expire, skip, finish, new, start, advance, step, steps,
  start_call, interrupt, tick, timer, cancellation, run_end, stop,
}

change-ended :
    (n : ℕ) (f : Job → Job) (js : List Job)
    → f ended ≡ ended
    → all_ended js ≡ true
    → all_ended (change n f js) ≡ true
change-ended n f [] e h = refl
change-ended zero f (delayed ∷ js) e h = ground arith
change-ended zero f (trying ∷ js) e h = ground arith
change-ended zero f (ended ∷ js) e h = ground arith
change-ended (suc n) f (j ∷ js) e h = ground (arith, change-ended n f js e)

-- The call has seen that all jobs have ended.
abbrev past : StopPc → Bool
past drained = true
past returned = true
past _ = false

-- The call is past its first critical section.
abbrev begun : StopPc → Bool
begun draining = true
begun drained = true
begun following = true
begun returned = true
begun _ = false

-- Once a call of `Stop` has begun, no job starts; where it waits no longer, all have ended.
abbrev pub Sound : Scheduler → Type 0
Sound s =
    (s.stopping ≡ true → s.ticking ≡ false)
    × (s.done ≡ true → (s.stopping ≡ true) × (all_ended s.jobs ≡ true))
    × ((i : ℕ)
        → (begun (s.stops i) ≡ true → s.stopping ≡ true)
          × (past (s.stops i) ≡ true → all_ended s.jobs ≡ true))

-- A change of the jobs that no ended job takes part in.
jobs-Sound :
    (s : Scheduler) (js : List Job)
    → (all_ended s.jobs ≡ true → all_ended js ≡ true)
    → Sound s
    → Sound (record s { jobs = js })
jobs-Sound s js k (h1, h2, h3) = (
  h1,
  λ d. (ground (arith, h2), ground (arith, h2, k)),
  λ i. (ground (arith, h3 i), ground (arith, h3 i, k)),
)

advance-Sound :
    (i : ℕ) (p : StopPc) (s : Scheduler) → s.stops i ≡ p → Sound s → Sound (advance i p s)
unfolding advance
advance-Sound i idle s q (h1, h2, h3) =
    (ground (arith, h1, h2, h3 i), ground (arith, h2, h3 i), λ j. ground (arith, h2, h3 i, h3 j))
advance-Sound i entered s q (h1, h2, h3) =
    (ground (arith, h1, h2, h3 i), ground (arith, h2, h3 i), λ j. ground (arith, h2, h3 i, h3 j))
advance-Sound i draining s q (h1, h2, h3) =
    (ground (arith, h1, h2, h3 i), ground (arith, h2, h3 i), λ j. ground (arith, h2, h3 i, h3 j))
advance-Sound i drained s q (h1, h2, h3) =
    (ground (arith, h1, h2, h3 i), ground (arith, h2, h3 i), λ j. ground (arith, h2, h3 i, h3 j))
advance-Sound i following s q (h1, h2, h3) =
    (ground (arith, h1, h2, h3 i), ground (arith, h2, h3 i), λ j. ground (arith, h2, h3 i, h3 j))
advance-Sound i returned s q (h1, h2, h3) =
    (ground (arith, h1, h2, h3 i), ground (arith, h2, h3 i), λ j. ground (arith, h2, h3 i, h3 j))

if-Sound : (b : Bool) (s t : Scheduler) → Sound s → Sound t → Sound (if b then s else t)
if-Sound true s t h k = h
if-Sound false s t h k = k

step-Sound : (a : Action) (s : Scheduler) → Sound s → Sound (step a s)
unfolding step start
step-Sound (start_call p e) s (h1, h2, h3) =
    (ground (arith, h1, h2), ground (arith, h2), λ j. ground (arith, h3 j))
step-Sound interrupt s h = h
step-Sound (tick share) s (h1, h2, h3) =
    (ground (arith, h1), ground (arith, h1, h2), λ j. ground (arith, h1, h3 j))
step-Sound (timer n) s h =
    jobs-Sound s (change n expire s.jobs) (change-ended n expire s.jobs refl) h
step-Sound (cancellation n) s h =
    let skipped = change n skip s.jobs in
    if-Sound s.canceled (record s { jobs = skipped }) s
      (jobs-Sound s skipped (change-ended n skip s.jobs refl) h) h
step-Sound (run_end n) s h =
    jobs-Sound s (change n finish s.jobs) (change-ended n finish s.jobs refl) h
step-Sound (stop i) s h = advance-Sound i (s.stops i) s refl h

steps-Sound : (l : List Action) (s : Scheduler) → Sound s → Sound (steps l s)
unfolding steps
steps-Sound [] s h = h
steps-Sound (a ∷ l) s h = steps-Sound l (step a s) (step-Sound a s h)

new-Sound : (cfg : Config) → Sound (new cfg)
new-Sound cfg = (ground arith, ground arith, λ i. (ground arith, ground arith))

step-returned :
    (a : Action) (s : Scheduler) (i : ℕ) → s.stops i ≡ returned → (step a s).stops i ≡ returned
unfolding step start advance
step-returned (start_call p e) s i h = ground arith
step-returned interrupt s i h = h
step-returned (tick share) s i h = ground arith
step-returned (timer n) s i h = h
step-returned (cancellation n) s i h = ground arith
step-returned (run_end n) s i h = h
step-returned (stop j) s i h = ground arith

steps-returned :
    (l : List Action) (s : Scheduler) (i : ℕ)
    → s.stops i ≡ returned
    → (steps l s).stops i ≡ returned
unfolding steps
steps-returned [] s i h = h
steps-returned (a ∷ l) s i h = steps-returned l (step a s) i (step-returned a s i h)

-- However the calls and the jobs of a new scheduler are interleaved, where some call of `Stop` has
-- returned, every job has ended, and whatever happens after that, a call of `Start` included, none
-- starts again.
pub stop_ends :
    (cfg : Config) (l m : List Action) (i : ℕ)
    → (steps l (new cfg)).stops i ≡ returned
    → all_ended (steps m (steps l (new cfg))).jobs ≡ true
stop_ends cfg l m i h =
    let s = steps l (new cfg) in
    let later = steps-Sound m s (steps-Sound l (new cfg) (new-Sound cfg)) in
    ground (arith, later.2 i, steps-returned m s i h)

-- Every job has a context, and once a call of `Stop` has begun, that context has ended.
abbrev Cancelable : Scheduler → Type 0
Cancelable s =
    (s.stopping ≡ true → s.ticking ≡ false)
    × (s.has_cancel ≡ false → (s.ticking ≡ false) × (s.jobs ≡ []))
    × (s.stopping ≡ true → (s.canceled ≡ true) ⊎ (s.jobs ≡ []))

advance-Cancelable :
    (i : ℕ) (p : StopPc) (s : Scheduler) → Cancelable s → Cancelable (advance i p s)
unfolding advance
advance-Cancelable i idle s h = h
advance-Cancelable i entered s (h1, h2, h3) =
    (ground (arith, h1), ground (arith, h2), ground (arith, h2, h3))
advance-Cancelable i draining s (h1, h2, h3) =
    (ground (arith, h1), ground (arith, h2), ground (arith, h3))
advance-Cancelable i drained s h = h
advance-Cancelable i following s (h1, h2, h3) =
    (ground (arith, h1), ground (arith, h2), ground (arith, h3))
advance-Cancelable i returned s h = h

change-empty : (n : ℕ) (f : Job → Job) (js : List Job) → js ≡ [] → change n f js ≡ []
change-empty n f [] h = refl
change-empty n f (j ∷ js) h = cc

step-Cancelable : (a : Action) (s : Scheduler) → Cancelable s → Cancelable (step a s)
unfolding step start
step-Cancelable (start_call p e) s (h1, h2, h3) =
    (ground (arith, h1), ground (arith, h2), ground (arith, h3))
step-Cancelable interrupt s (h1, h2, h3) =
    (ground (arith, h1), ground (arith, h2), ground (arith, h3))
step-Cancelable (tick share) s (h1, h2, h3) =
    (ground (arith, h1), ground (arith, h1, h2), ground (arith, h1, h3))
step-Cancelable (timer n) s (h1, h2, h3) =
    let e = change-empty n expire s.jobs in (h1, ground (arith, h2, e), ground (arith, h3, e))
step-Cancelable (cancellation n) s (h1, h2, h3) =
    let e = change-empty n skip s.jobs in
    (ground (arith, h1), ground (arith, h2, e), ground (arith, h3, e))
step-Cancelable (run_end n) s (h1, h2, h3) =
    let e = change-empty n finish s.jobs in (h1, ground (arith, h2, e), ground (arith, h3, e))
step-Cancelable (stop i) s h = advance-Cancelable i (s.stops i) s h

steps-Cancelable : (l : List Action) (s : Scheduler) → Cancelable s → Cancelable (steps l s)
unfolding steps
steps-Cancelable [] s h = h
steps-Cancelable (a ∷ l) s h = steps-Cancelable l (step a s) (step-Cancelable a s h)

-- However the calls and the jobs of a new scheduler are interleaved, once a call of `Stop` has begun, a
-- job that waits for its delay can end at once, without a run: its next step on the end of its
-- context leaves the job list as `skip` changes it.
pub stop_skips :
    (cfg : Config) (l : List Action) (n : ℕ)
    → let s = steps l (new cfg) in
      s.stopping ≡ true → (step (cancellation n) s).jobs ≡ change n skip s.jobs
unfolding step
stop_skips cfg l n h =
    let s = steps l (new cfg) in
    let c = steps-Cancelable l (new cfg) (ground arith, λ e. (refl, refl), ground arith) in
    ground (arith, c.2, change-empty n skip s.jobs)
