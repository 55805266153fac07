-- ===== src/TlsClient/Exchange.antt =====
-- RoundTrip of the client: what it leaves, and what it returns.
use mtlogin.Prelude.{suc, ◌≤◌, ◌≡◌, arith, inl, inr, ltb, Bool-cases, Option-cases}
use mtlogin.Errors.{GoError, Result, ok, err, Result-cases}
use mtlogin.Context.{Ctx}
use mtlogin.Http.{Request, Response}
use mtlogin.TlsClient.{
  Library, Pool, max_response_bytes, effective_user_agent, client_of, key_of, jar_for, config_for,
  new_client, acquire, advance, build_request, exchange, round_trip,
}

module _ {W H J F B : Type 0} (L : Library W H J F B) where
  Small : Result Response → Type 0
  Small r = (resp : Response) → r ≡ ok resp → L.bytes resp.body ≤ max_response_bytes

  refused-Small : (e : GoError) → Small (err e)
  unfolding Small
  refused-Small e resp h = cc

  exchange-Small : (h : H) (f : F) (w : W) → Small (exchange L h f w).0
  unfolding Small
  exchange-Small h f w resp k = elim (Result-cases (L.send_request h f w).0) [
    | inr (e, q) ↦ ground (arith, q, k)
    | inl (a, q) ↦
        elim (Result-cases
          (L.read_at_most (suc max_response_bytes) a.body (L.send_request h f w).1).0) [
            | inr (e, r) ↦ ground (arith, q, r, k)
            | inl (body, r) ↦ elim (Bool-cases (ltb max_response_bytes (L.bytes body))) [
              | inl c ↦ ground (arith, q, r, c, k)
              | inr c ↦ ground (arith, q, r, c, k)
            ]
          ]
  ]

  -- acquire counts the request exactly if it gives out a client.
  acquire_counts :
      (req : Request) (p : Pool H J) (w : W)
      → let (r, q) = (acquire L req p w).0 in
        q.inflight ≡ elim r [ ok h ↦ suc p.inflight | err e ↦ p.inflight ]
  unfolding acquire
  acquire_counts req p w = elim (Bool-cases p.closed) [
    | inl c ↦ ground (arith, c)
    | inr c ↦ elim (Option-cases (client_of (key_of L req) p.clients)) [
      | inr (h, k) ↦ ground (arith, c, k)
      | inl k ↦
          let made = jar_for L req.cookie_scope p.jars w in
          elim (Result-cases (new_client L (config_for L req made.0.0) made.1).0) [
            | inl (h, e) ↦ ground (arith, c, k, e)
            | inr (q, e) ↦ ground (arith, c, k, e)
          ]
    ]
  ]

  -- However a RoundTrip ends, it leaves the number of the requests that are under way as it was, so
  -- that Close does not wait for it; and the body that it returns has at most 16 MiB.
  pub round_trip_lem :
      (ctx : Ctx) (req : Request) (p : Pool H J) (w : W)
      → let (r, (q, v)) = round_trip L ctx req (p, w) in
        (q.inflight ≡ p.inflight)
        × ((resp : Response) → r ≡ ok resp → L.bytes resp.body ≤ max_response_bytes)
  unfolding round_trip Small advance
  round_trip_lem ctx req p w = elim (Option-cases (L.ctx_err ctx w).0) [
    | inr (e, h) ↦ ground (arith, h)
    | inl h ↦
        let v = (L.ctx_err ctx w).1 in
        let got = acquire L req p v in
        elim (Result-cases got.0.0) [
          | inr (e, k) ↦ ground (arith, h, k, acquire_counts req p v)
          | inl (c, k) ↦
              elim (Result-cases (build_request L ctx req (effective_user_agent L req))) [
                | inr (e, b) ↦ ground (arith, h, k, b, acquire_counts req p v)
                | inl (f, b) ↦
                    ground (arith, h, k, b, acquire_counts req p v, exchange-Small c f got.1)
              ]
        ]
  ]
