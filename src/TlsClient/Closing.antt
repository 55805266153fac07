-- ===== src/TlsClient/Closing.antt =====
-- Close of the client: it waits for the requests, and none comes after it.
use mtlogin.Prelude.{
  ◌&&◌, ◌==◌, ◌<◌, ◌≡◌, true, false, List, [], ◌∷◌, arith, inl, inr, Bool-cases, Option-cases,
}
use mtlogin.Errors.{sentinel, tls_client_closed, err, Result-cases}
use mtlogin.Http.{Request}
use mtlogin.TlsClient.{
  Library, Pool, new_tls_client, Action, acquire_call, request_end, close_call, clear, close_return,
  client_of, key_of, jar_for, config_for, new_client, acquire, advance, steps,
}

module _ {W H J F B : Type 0} (L : Library W H J F B) where
  abbrev pub Sound : Pool H J → Type 0
  Sound p =
      (p.closing ≡ true → p.closed ≡ true)
      × (p.done ≡ true
          → (p.closed ≡ true) × (p.closing ≡ false) × (p.inflight ≡ 0) × (p.clients ≡ []))
      × (p.done ≡ false → p.returned ≡ 0)

  pub acquire_closed :
      (req : Request) (p : Pool H J) (w : W)
      → p.closed ≡ true
      → acquire L req p w ≡ ((err (sentinel tls_client_closed), p), w)
  unfolding acquire
  acquire_closed req p w h = ground (arith, h)

  -- What acquire leaves as it was.
  unfoldable pub SameFlags : Pool H J → Pool H J → Type 0
  SameFlags p q =
      (q.closed ≡ p.closed)
      × (q.closing ≡ p.closing)
      × (q.done ≡ p.done)
      × (q.returned ≡ p.returned)

  pub acquire_flags : (req : Request) (p : Pool H J) (w : W) → SameFlags p (acquire L req p w).0.1
  unfolding acquire SameFlags
  acquire_flags req p w = elim (Bool-cases p.closed) [
    | inl c ↦ ground (arith, c)
    | inr c ↦ elim (Option-cases (client_of (key_of L req) p.clients)) [
      | inr (h, k) ↦ ground (arith, c, k)
      | inl k ↦
          let made = jar_for L req.cookie_scope p.jars w in
          elim (Result-cases (new_client L (config_for L req made.0.0) made.1).0) [
            | inl (h, e) ↦ ground (arith, c, k, e)
            | inr (q, e) ↦ ground (arith, c, k, e)
          ]
    ]
  ]

  pub acquire-Sound :
      (req : Request) (p : Pool H J) (w : W) → Sound p → Sound (acquire L req p w).0.1
  unfolding SameFlags
  acquire-Sound req p w h = elim (Bool-cases p.closed) [
    | inl c ↦ ground (arith, h, acquire_closed req p w c)
    | inr c ↦ ground (arith, h, c, acquire_flags req p w)
  ]

  advance-Sound : (a : Action) (p : Pool H J) (w : W) → Sound p → Sound (advance L a (p, w)).0
  unfolding advance
  advance-Sound (acquire_call req) p w h = acquire-Sound req p w h
  advance-Sound request_end p w h = ground (arith, h)
  advance-Sound close_call p w h = elim (Bool-cases p.closed) [
    | inl c ↦ ground (arith, h, c)
    | inr c ↦ ground (arith, h, c)
  ]
  advance-Sound clear p w h = elim (Bool-cases (p.closing && p.inflight == 0)) [
    | inl c ↦ ground (arith, h, c)
    | inr c ↦ ground (arith, h, c)
  ]
  advance-Sound close_return p w h = elim (Bool-cases p.done) [
    | inl c ↦ ground (arith, h, c)
    | inr c ↦ ground (arith, h, c)
  ]

  pub steps-Sound : (as_ : List Action) (y : Pool H J × W) → Sound y.0 → Sound (steps L as_ y).0
  unfolding steps
  steps-Sound [] y h = h
  steps-Sound (a ∷ as_) (p, w) h = steps-Sound as_ (advance L a (p, w)) (advance-Sound a p w h)

  advance_done :
      (a : Action) (p : Pool H J) (w : W)
      → Sound p
      → p.done ≡ true
      → (advance L a (p, w)).0.done ≡ true
  unfolding advance
  advance_done (acquire_call req) p w h d = ground (arith, h, d, acquire_closed req p w (h.1 d).0)
  advance_done request_end p w h d = d
  advance_done close_call p w h d = ground (arith, h, d)
  advance_done clear p w h d = ground (arith, h, d)
  advance_done close_return p w h d = ground (arith, h, d)

  steps_done :
      (as_ : List Action) (y : Pool H J × W)
      → Sound y.0
      → y.0.done ≡ true
      → (steps L as_ y).0.done ≡ true
  unfolding steps
  steps_done [] y h d = d
  steps_done (a ∷ as_) (p, w) h d =
      steps_done as_ (advance L a (p, w)) (advance-Sound a p w h) (advance_done a p w h d)

  abbrev pub run : List Action → W → Pool H J × W
  run as_ w = steps L as_ (new_tls_client, w)

  pub run-Sound : (as_ : List Action) (w : W) → Sound (run as_ w).0
  run-Sound as_ w = steps-Sound as_ (new_tls_client, w) (ground arith, ground arith, ground arith)

  -- However the requests and the calls of Close on a new client are interleaved, where some call of
  -- Close has returned, and whatever happens after that, no request is under way, no HTTP client is
  -- kept, and a request is refused with ErrTLSClientClosed and changes nothing.
  pub close_final :
      (as_ bs : List Action) (w : W)
      → 0 < (run as_ w).0.returned
      → let y = steps L bs (run as_ w) in
        (y.0.inflight ≡ 0)
        × (y.0.clients ≡ [])
        × ((req : Request) → acquire L req y.0 y.1 ≡ ((err (sentinel tls_client_closed), y.0), y.1))
  close_final as_ bs w h =
      let x = run as_ w in
      let s = run-Sound as_ w in
      let d : x.0.done ≡ true = ground (arith, s, h) in
      let y = steps L bs x in
      let t = (steps-Sound bs x s).1 (steps_done bs x s d) in
      (t.2, t.3, λ req. acquire_closed req y.0 y.1 t.0)
