-- ===== src/TlsClient/Jars.antt =====
-- The cookie jars of the client: one for each scope, in every interleaving.
use mtlogin.Prelude.{
  suc, String, ◌≡◌, Bool, true, false, ◌&&◌, ◌==◌, some, List, [], ◌∷◌, inl, inr, if◌then◌else◌,
  Bool-cases,
}
use mtlogin.Errors.{ok}
use mtlogin.TlsClient.{
  ClientOption, Library, Pool, new_tls_client, Action, acquire_call, request_end, close_call, clear,
  close_return, jar_of, advance, steps,
}
use mtlogin.TlsClient.Closing.{run}
use mtlogin.TlsClient.Fits.{Kept, acquire_kept}

module _ {W H J F B : Type 0} (L : Library W H J F B) (options_of : H → List (ClientOption J))
    (built : (os : List (ClientOption J)) (w : W) (h : H)
      → (L.new_http_client os w).0 ≡ ok h
      → options_of h ≡ os) where
  if_kept :
      (b : Bool) (p q : Pool H J)
      → Kept L options_of p
      → Kept L options_of q
      → Kept L options_of (if b then p else q)
  if_kept true p q h k = h
  if_kept false p q h k = k

  advance_kept :
      (a : Action) (p : Pool H J) (w : W)
      → Kept L options_of p
      → Kept L options_of (advance L a (p, w)).0
  unfolding advance
  advance_kept (acquire_call req) p w k = (acquire_kept L options_of built req p w k).0
  advance_kept request_end p w k = k
  advance_kept close_call p w k =
      if_kept p.closed p (record p { closed = true; closing = true }) k k
  advance_kept clear p w k = elim (Bool-cases (p.closing && p.inflight == 0)) [
    | inl c ↦ rw (c) _
    | inr c ↦ rw (c) k
  ]
  advance_kept close_return p w k = if_kept p.done (record p { returned = suc p.returned }) p k k

  steps_kept :
      (as_ : List Action) (y : Pool H J × W)
      → Kept L options_of y.0
      → Kept L options_of (steps L as_ y).0
  unfolding steps
  steps_kept [] y k = k
  steps_kept (a ∷ as_) (p, w) k = steps_kept as_ (advance L a (p, w)) (advance_kept a p w k)

  abbrev Remembers : String → J → Pool H J → Type 0
  Remembers s j p = p.done ≡ false → jar_of s p.jars ≡ some j

  pub run_kept : (as_ : List Action) (w : W) → Kept L options_of (run L as_ w).0
  run_kept as_ w = steps_kept as_ (new_tls_client, w) _
