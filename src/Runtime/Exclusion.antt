-- ===== src/Runtime/Exclusion.antt =====
-- What holds of internal/runtime/runtime.go in every interleaving of calls.
use mtlogin.Prelude.{ℕ, Bool, true, false, ◌≡◌, ◌≢◌, Option, some, List, [], ◌∷◌, arith, refl}
use mtlogin.Errors.{GoError}
use mtlogin.Runtime.{Runtime, Pc, Action, step, steps, advance, new}
use mtlogin.Runtime.{
  idle, try_entered, try_unstopped, try_undelayed, try_alive, try_locked, try_confirmed, running,
  leaving, try_returned, stop_entered, stop_swapped, stop_waiting, stop_locked, stop_returned,
  publish, try_run, stop, interrupt, proceed,
}

module _ {V : Type 0} where
  -- The call holds the lock.
  abbrev pub holds : Pc V → Bool
  holds try_locked = true
  holds try_confirmed = true
  holds (running _) = true
  holds (leaving _) = true
  holds stop_locked = true
  holds _ = false

  -- A run that is going on, or that nothing can keep from starting.
  abbrev pub active : Pc V → Bool
  active try_confirmed = true
  active (running _) = true
  active _ = false

  -- `Stop` has had the lock.
  abbrev pub had_lock : Pc V → Bool
  had_lock stop_locked = true
  had_lock stop_returned = true
  had_lock _ = false

  -- `Stop` is past its CompareAndSwap.
  abbrev pub swapped : Pc V → Bool
  swapped stop_swapped = true
  swapped stop_waiting = true
  swapped stop_locked = true
  swapped stop_returned = true
  swapped _ = false

  abbrev pub Exclusive : Runtime V → Type 0
  Exclusive s = (i : ℕ) → holds (s.pcs i) ≡ true → s.lock ≡ some i

  abbrev pub Stopping : Runtime V → Type 0
  Stopping s = (i : ℕ) → swapped (s.pcs i) ≡ true → s.stopped ≡ true

  abbrev pub Quiet : Runtime V → Type 0
  Quiet s = (i j : ℕ) → had_lock (s.pcs i) ≡ true → active (s.pcs j) ≡ false

  advance-Exclusive :
      (i : ℕ) (d r : Option GoError) (p : Pc V) (s : Runtime V)
      → s.pcs i ≡ p
      → Exclusive s
      → Exclusive (advance i d r p s)
  unfolding advance
  advance-Exclusive i d r idle s q h j = h j
  advance-Exclusive i d r try_entered s q h j = ground (arith, h j)
  advance-Exclusive i d r try_unstopped s q h j = ground (arith, h j)
  advance-Exclusive i d r try_undelayed s q h j = ground (arith, h j)
  advance-Exclusive i d r try_alive s q h j = ground (arith, h j)
  advance-Exclusive i d r try_locked s q h j = ground (arith, h j, h i)
  advance-Exclusive i d r try_confirmed s q h j = ground (arith, h j, h i)
  advance-Exclusive i d r (running v) s q h j = ground (arith, h j, h i)
  advance-Exclusive i d r (leaving e) s q h j = ground (arith, h j, h i)
  advance-Exclusive i d r (try_returned e) s q h j = h j
  advance-Exclusive i d r stop_entered s q h j = ground (arith, h j)
  advance-Exclusive i d r stop_swapped s q h j = ground (arith, h j)
  advance-Exclusive i d r stop_waiting s q h j = ground (arith, h j)
  advance-Exclusive i d r stop_locked s q h j = ground (arith, h j, h i)
  advance-Exclusive i d r stop_returned s q h j = h j

  step-Exclusive : (a : Action V) (s : Runtime V) → Exclusive s → Exclusive (step a s)
  unfolding step
  step-Exclusive (publish v) s h j = h j
  step-Exclusive (try_run i) s h j = ground (arith, h j)
  step-Exclusive (stop i) s h j = ground (arith, h j)
  step-Exclusive (interrupt e) s h j = h j
  step-Exclusive (proceed i d r) s h j = advance-Exclusive i d r (s.pcs i) s refl h j

  advance-Stopping :
      (i : ℕ) (d r : Option GoError) (p : Pc V) (s : Runtime V)
      → s.pcs i ≡ p
      → Stopping s
      → Stopping (advance i d r p s)
  unfolding advance
  advance-Stopping i d r idle s q h j = h j
  advance-Stopping i d r try_entered s q h j = ground (arith, h j)
  advance-Stopping i d r try_unstopped s q h j = ground (arith, h j)
  advance-Stopping i d r try_undelayed s q h j = ground (arith, h j)
  advance-Stopping i d r try_alive s q h j = ground (arith, h j)
  advance-Stopping i d r try_locked s q h j = ground (arith, h j)
  advance-Stopping i d r try_confirmed s q h j = ground (arith, h j)
  advance-Stopping i d r (running v) s q h j = ground (arith, h j)
  advance-Stopping i d r (leaving e) s q h j = ground (arith, h j)
  advance-Stopping i d r (try_returned e) s q h j = h j
  advance-Stopping i d r stop_entered s q h j = ground (arith, h j)
  advance-Stopping i d r stop_swapped s q h j = ground (arith, h j, h i)
  advance-Stopping i d r stop_waiting s q h j = ground (arith, h j, h i)
  advance-Stopping i d r stop_locked s q h j = ground (arith, h j, h i)
  advance-Stopping i d r stop_returned s q h j = h j

  step-Stopping : (a : Action V) (s : Runtime V) → Stopping s → Stopping (step a s)
  unfolding step
  step-Stopping (publish v) s h j = h j
  step-Stopping (try_run i) s h j = ground (arith, h j)
  step-Stopping (stop i) s h j = ground (arith, h j)
  step-Stopping (interrupt e) s h j = h j
  step-Stopping (proceed i d r) s h j = advance-Stopping i d r (s.pcs i) s refl h j

  advance-Quiet :
      (i : ℕ) (d r : Option GoError) (p : Pc V) (s : Runtime V)
      → s.pcs i ≡ p
      → Exclusive s
      → Stopping s
      → Quiet s
      → Quiet (advance i d r p s)
  unfolding advance
  advance-Quiet i d r idle s q x t h j k = h j k
  advance-Quiet i d r try_entered s q x t h j k = ground (arith, h j k)
  advance-Quiet i d r try_unstopped s q x t h j k = ground (arith, h j k)
  advance-Quiet i d r try_undelayed s q x t h j k = ground (arith, h j k)
  advance-Quiet i d r try_alive s q x t h j k = ground (arith, h j k)
  advance-Quiet i d r try_locked s q x t h j k = ground (arith, h j k, t j)
  advance-Quiet i d r try_confirmed s q x t h j k = ground (arith, h j k, h j i)
  advance-Quiet i d r (running v) s q x t h j k = ground (arith, h j k)
  advance-Quiet i d r (leaving e) s q x t h j k = ground (arith, h j k)
  advance-Quiet i d r (try_returned e) s q x t h j k = h j k
  advance-Quiet i d r stop_entered s q x t h j k = ground (arith, h j k)
  advance-Quiet i d r stop_swapped s q x t h j k = ground (arith, h j k)
  advance-Quiet i d r stop_waiting s q x t h j k = ground (arith, h j k, x k)
  advance-Quiet i d r stop_locked s q x t h j k = ground (arith, h j k, h i k)
  advance-Quiet i d r stop_returned s q x t h j k = h j k

  step-Quiet :
      (a : Action V) (s : Runtime V) → Exclusive s → Stopping s → Quiet s → Quiet (step a s)
  unfolding step
  step-Quiet (publish v) s x t h j k = h j k
  step-Quiet (try_run i) s x t h j k = ground (arith, h j k)
  step-Quiet (stop i) s x t h j k = ground (arith, h j k)
  step-Quiet (interrupt e) s x t h j k = h j k
  step-Quiet (proceed i d r) s x t h j k = advance-Quiet i d r (s.pcs i) s refl x t h j k

  steps-safe :
      (l : List (Action V)) (s : Runtime V)
      → Exclusive s
      → Stopping s
      → Quiet s
      → Exclusive (steps l s) × Stopping (steps l s) × Quiet (steps l s)
  unfolding steps
  steps-safe [] s x t h = (x, t, h)
  steps-safe (a ∷ l) s x t h =
      steps-safe l (step a s) (step-Exclusive a s x) (step-Stopping a s t) (step-Quiet a s x t h)

  step-stays :
      (a : Action V) (s : Runtime V) (i : ℕ)
      → s.pcs i ≡ stop_returned
      → (step a s).pcs i ≡ stop_returned
  unfolding step advance
  step-stays (publish v) s i h = h
  step-stays (try_run j) s i h = ground arith
  step-stays (stop j) s i h = ground arith
  step-stays (interrupt e) s i h = h
  step-stays (proceed j d r) s i h = ground arith

  steps-stays :
      (l : List (Action V)) (s : Runtime V) (i : ℕ)
      → s.pcs i ≡ stop_returned
      → (steps l s).pcs i ≡ stop_returned
  unfolding steps
  steps-stays [] s i h = h
  steps-stays (a ∷ l) s i h = steps-stays l (step a s) i (step-stays a s i h)

  new-safe :
      (e : Option GoError) (l : List (Action V))
      → Exclusive (steps l (new e)) × Stopping (steps l (new e)) × Quiet (steps l (new e))
  new-safe e l = steps-safe l (new e) (λ k h. cc) (λ k h. cc) (λ k m h. refl)

  -- However the calls on a new `Runtime` are interleaved, two runs never go on at the same time: two
  -- calls of `TryRun` that are running are one call.
  pub runs_exclusive :
      (e : Option GoError) (l : List (Action V)) (i j : ℕ) (v w : V)
      → (steps l (new e)).pcs i ≡ running v
      → (steps l (new e)).pcs j ≡ running w
      → i ≡ j
  runs_exclusive e l i j v w p q = let safe = new-safe e l in ground (arith, safe.0 i, safe.0 j)

  -- However the calls on a new `Runtime` are interleaved, where some call of `Stop` has returned, no
  -- run goes on, and whatever happens after that, none ever does.
  pub stop_final :
      (e : Option GoError) (l m : List (Action V)) (i j : ℕ) (v : V)
      → (steps l (new e)).pcs i ≡ stop_returned
      → (steps m (steps l (new e))).pcs j ≢ running v
  stop_final e l m i j v p running_again =
      let s = steps l (new e) in
      let safe = new-safe e l in
      let later = steps-safe m s safe.0 safe.1 safe.2 in
      ground (arith, later.2 i j, steps-stays m s i p)
