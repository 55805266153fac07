-- ===== src/Notify/Closing.antt =====
-- Close of the manager: it waits for the calls of Notify, and no channel is told after it.
use mtlogin.Prelude.{
  ℕ, ◌<◌, ◌≡◌, refl, true, List, [], ◌∷◌, arith, inl, inr, Bool-cases, Option-cases,
}
use mtlogin.Errors.{sentinel, manager_closed}
use mtlogin.Context.{Ctx}
use mtlogin.Notify.Manager.{Message, Managed}
use mtlogin.Notify.Desk.{
  refused, Desk, Action, notify_call, send_end, notify_return, close_call, close_return, take_out,
  is_done, advance, steps, fresh,
}

module _ {W : Type 0} (notifiers : List (Managed W)) where
  -- Whoever waits has set the flag; where a call of Close has returned, none of Notify goes on.
  abbrev Sound : Desk W → Type 0
  Sound d =
      (0 < d.waiting → d.closing ≡ true) × (0 < d.returned → (d.closing ≡ true) × (d.calls ≡ []))

  send-Sound : (i k : ℕ) (d : Desk W) → Sound d → Sound (advance notifiers (send_end i k) d)
  unfolding advance
  send-Sound i k d h = elim (Option-cases (take_out i d.calls)) [
    | inl e ↦ ground (arith, h, e)
    | inr ((c, cs), e) ↦ elim (Option-cases (take_out k c.rest)) [
      | inl q ↦ ground (arith, h, e, q)
      | inr ((item, rest), q) ↦ ground (arith, h, e, q)
    ]
  ]

  return-Sound : (i : ℕ) (d : Desk W) → Sound d → Sound (advance notifiers (notify_return i) d)
  unfolding advance
  return-Sound i d h = elim (Option-cases (take_out i d.calls)) [
    | inl e ↦ ground (arith, h, e)
    | inr ((c, cs), e) ↦ elim (Bool-cases (is_done c.rest)) [
      | inl q ↦ ground (arith, h, e, q)
      | inr q ↦ ground (arith, h, e, q)
    ]
  ]

  advance-Sound : (a : Action) (d : Desk W) → Sound d → Sound (advance notifiers a d)
  unfolding advance
  advance-Sound (notify_call ctx msg) d h = ground (arith, h)
  advance-Sound (send_end i k) d h = send-Sound i k d h
  advance-Sound (notify_return i) d h = return-Sound i d h
  advance-Sound close_call d h = ground (arith, h)
  advance-Sound close_return d h = ground (arith, h)

  steps-Sound : (as_ : List Action) (d : Desk W) → Sound d → Sound (steps notifiers as_ d)
  unfolding steps
  steps-Sound [] d h = h
  steps-Sound (a ∷ as_) d h = steps-Sound as_ (advance notifiers a d) (advance-Sound a d h)

  advance_returned :
      (a : Action) (d : Desk W) → Sound d → 0 < d.returned → 0 < (advance notifiers a d).returned
  unfolding advance
  advance_returned (notify_call ctx msg) d s h = ground (arith, h)
  advance_returned (send_end i k) d s h = ground (arith, s, h)
  advance_returned (notify_return i) d s h = ground (arith, s, h)
  advance_returned close_call d s h = h
  advance_returned close_return d s h = ground (arith, h)

  steps_returned :
      (as_ : List Action) (d : Desk W)
      → Sound d
      → 0 < d.returned
      → 0 < (steps notifiers as_ d).returned
  unfolding steps
  steps_returned [] d s h = h
  steps_returned (a ∷ as_) d s h =
      steps_returned as_ (advance notifiers a d) (advance-Sound a d s) (advance_returned a d s h)

  pub fresh-Sound : (w : W) → Sound (fresh w)
  fresh-Sound w = (λ h. ground (arith, h), λ h. ground (arith, h))

  -- However the calls of Notify and of Close on a new manager are interleaved, where some call of Close
  -- has returned, and whatever happens after that, no call of Notify goes on, a new one is refused with
  -- ErrManagerClosed and changes nothing else, and Send of no channel is called.
  pub close_quiet :
      (as_ bs : List Action) (w : W)
      → 0 < (steps notifiers as_ (fresh w)).returned
      → let d = steps notifiers bs (steps notifiers as_ (fresh w)) in
        (d.calls ≡ [])
        × ((ctx : Ctx) (msg : Message)
            → advance notifiers (notify_call ctx msg) d
              ≡ record d { answers = refused (sentinel manager_closed) ∷ d.answers })
        × ((i k : ℕ) → advance notifiers (send_end i k) d ≡ d)
  unfolding advance
  close_quiet as_ bs w h =
      let x = steps notifiers as_ (fresh w) in
      let s = steps-Sound as_ (fresh w) (fresh-Sound w) in
      let d = steps notifiers bs x in
      let t = (steps-Sound bs x s).1 (steps_returned bs x s h) in
      (t.1, λ ctx msg. rw (t.0) refl, λ i k. rw (t.1) refl)
