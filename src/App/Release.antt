-- ===== src/App/Release.antt =====
-- What internal/app/app.go and main.go hold when they return.
use mtlogin.Prelude.{Bool, true, false, ◌≡◌, ◌⊎◌, List, [], ◌∷◌, arith, ◌==◌, if◌then◌else◌}
use mtlogin.Errors.{Result, ok, err}
use mtlogin.Config.{Library}
use mtlogin.App.{
  Part, store, transport, manager, runtime, scheduler, number, Event, opened, closed, Life,
  Packages, build_scheduler, build_clients, open_all, new, close, close_parts, execute,
}

-- The latest event of the part is that it was opened.
abbrev pub held : Part → List Event → Bool
held p [] = false
held p (opened q ∷ es) = if number q == number p then true else held p es
held p (closed q ∷ es) = if number q == number p then false else held p es

-- The files, the connections and the channels; the runtime and the scheduler hold none.
abbrev pub Released : List Event → Type 0
Released es = (held store es ≡ false) × (held transport es ≡ false) × (held manager es ≡ false)

-- The events of a start that goes well.
abbrev pub assembled : List Event
assembled =
    opened scheduler ∷ opened runtime ∷ opened manager ∷ opened transport ∷ opened store ∷ []

abbrev pub begin : {W : Type 0} → W → Life W
begin w = record { world = w; events = [] }

-- Everything is open, or New has failed and left nothing open.
abbrev pub Assembled : {W : Type 0} → Result (Unit {0}) × Life W → Type 0
Assembled (ok _, y) = y.events ≡ assembled
Assembled (err e, y) = Released y.events

module _ {W : Type 0} (G : Library) (P : Packages W) where
  -- `New` returns an application with all five parts built, in this order: the store, the transport,
  -- the notification manager, the runtime and the scheduler; or it fails, and then every store,
  -- transport and manager that it opened is closed.
  pub new-Assembled : (w : W) → Assembled (new G P (begin w))
  unfolding new open_all build_clients build_scheduler
  new-Assembled w = ground arith

  -- `execute` returns with every store, transport and manager closed that it opened, whatever fails.
  pub execute-Released :
      (local_run : Bool) (w : W) → Released (execute G P local_run (begin w)).1.events
  unfolding execute close close_parts
  execute-Released local_run w = ground (arith, new-Assembled w)

  -- The exit code is 0 or 1, and where it is 0, all five parts were built and then stopped or closed
  -- in this order: the runtime, the scheduler, the notification manager, the transport, the store.
  pub execute_order :
      (local_run : Bool) (w : W)
      → let z = execute G P local_run (begin w) in
        (z.0 ≡ 1)
        ⊎ (z.0 ≡ 0)
          × (z.1.events
              ≡ closed store
                ∷ closed transport
                ∷ closed manager
                ∷ closed scheduler
                ∷ closed runtime
                ∷ assembled)
  unfolding execute close close_parts
  execute_order local_run w = ground (arith, new-Assembled w)
