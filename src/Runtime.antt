-- ===== src/Runtime.antt =====
-- internal/runtime/runtime.go: `TryRun` and `Stop` as sequences of atomic steps, taken by any number
-- of concurrent calls in any order. A call is a number, and where it stands is its `Pc`.
pub mod Exclusion
pub mod Alone
use mtlogin.Prelude.{ℕ, Bool, true, false, Option, none, some, List, [], ◌∷◌, ◌==◌, if◌then◌else◌}
use mtlogin.Errors.{GoError, sentinel, canceled}
use mtlogin.Domain.Codes.{plain, scheduler_busy, runtime_service_not_published}

-- Each name says what the call has done last.
pub data Pc (V : Type 0) : Type 0 where
  idle : Pc V
  try_entered try_unstopped try_undelayed try_alive try_locked try_confirmed : Pc V
  running : V → Pc V
  leaving try_returned : Option GoError → Pc V
  stop_entered stop_swapped stop_waiting stop_locked stop_returned : Pc V

-- The fields of `Runtime`, with the calls made on it. `root_err` is `rootCtx.Err()`; `lock` is the
-- call that holds `runMu`.
pub record Runtime (V : Type 0) : Type 0 where
  pub root_err : Option GoError
  pub service : Option V
  pub lock : Option ℕ
  pub stopped : Bool
  pub pcs : ℕ → Pc V

-- What happens: a call of `Publish`, `TryRun` or `Stop` begins, the context that the process passed
-- to `New` ends with an error, or call i takes its next step. Such a step may read an error from the
-- call's `delayCtx`, and if it ends the run, it ends with a result.
pub data Action (V : Type 0) : Type 0 where
  publish : V → Action V
  try_run : ℕ → Action V
  stop : ℕ → Action V
  interrupt : GoError → Action V
  proceed : ℕ → Option GoError → Option GoError → Action V

-- A context that has ended keeps its error.
abbrev pub ended_with : GoError → Option GoError → Option GoError
ended_with e none = some e
ended_with e (some q) = some q

module _ {V : Type 0} where
  -- New
  abbrev pub new : Option GoError → Runtime V
  new e = record { root_err = e; service = none; lock = none; stopped = false; pcs = λ i. idle }

  abbrev pub at : ℕ → Pc V → Runtime V → Runtime V
  at i p s = record s { pcs = λ j. if j == i then p else s.pcs j }

  -- return err, before the lock is held
  abbrev pub return_or : ℕ → Option GoError → Pc V → Runtime V → Runtime V
  return_or i (some e) p s = at i (try_returned (some e)) s
  return_or i none p s = at i p s

  abbrev pub try_lock : ℕ → Option ℕ → Runtime V → Runtime V
  try_lock i (some j) s = at i (try_returned (some (plain scheduler_busy))) s
  try_lock i none s = at i try_locked (record s { lock = some i })

  abbrev pub load_service : ℕ → Option V → Runtime V → Runtime V
  load_service i none s = at i (leaving (some (plain runtime_service_not_published))) s
  load_service i (some v) s = at i (running v) s

  -- r.runMu.Lock() blocks while the lock is held.
  abbrev pub lock_or_wait : ℕ → Option ℕ → Runtime V → Runtime V
  lock_or_wait i (some j) s = s
  lock_or_wait i none s = at i stop_locked (record s { lock = some i })

  -- One atomic step of the call i that stands at the point given.
  unfoldable pub advance : ℕ → Option GoError → Option GoError → Pc V → Runtime V → Runtime V
  advance i delay_err result idle s = s
  advance i delay_err result try_entered s =
      if s.stopped then at i (try_returned (some (sentinel canceled))) s else at i try_unstopped s
  advance i delay_err result try_unstopped s = return_or i delay_err try_undelayed s
  advance i delay_err result try_undelayed s = return_or i s.root_err try_alive s
  advance i delay_err result try_alive s = try_lock i s.lock s
  advance i delay_err result try_locked s =
      if s.stopped then at i (leaving (some (sentinel canceled))) s else at i try_confirmed s
  advance i delay_err result try_confirmed s = load_service i s.service s
  advance i delay_err result (running v) s = at i (leaving result) s
  advance i delay_err result (leaving e) s = at i (try_returned e) (record s { lock = none })
  advance i delay_err result (try_returned e) s = s
  advance i delay_err result stop_entered s =
      if s.stopped then at i stop_waiting s else at i stop_swapped (record s { stopped = true })
  advance i delay_err result stop_swapped s =
      at i stop_waiting (record s { root_err = ended_with (sentinel canceled) s.root_err })
  advance i delay_err result stop_waiting s = lock_or_wait i s.lock s
  advance i delay_err result stop_locked s = at i stop_returned (record s { lock = none })
  advance i delay_err result stop_returned s = s

  -- A number stands for one call only.
  abbrev pub begin : ℕ → Pc V → Pc V → Runtime V → Runtime V
  begin i p idle s = at i p s
  begin i p _ s = s

  unfoldable pub step : Action V → Runtime V → Runtime V
  step (publish v) s = record s { service = some v }
  step (try_run i) s = begin i try_entered (s.pcs i) s
  step (stop i) s = begin i stop_entered (s.pcs i) s
  step (interrupt e) s = record s { root_err = ended_with e s.root_err }
  step (proceed i delay_err result) s = advance i delay_err result (s.pcs i) s

  unfoldable pub steps : List (Action V) → Runtime V → Runtime V
  steps [] s = s
  steps (a ∷ rest) s = steps rest (step a s)
