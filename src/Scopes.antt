-- ===== src/Scopes.antt =====
-- The two users of the one TLS client beside the sessions: NewClient of pkg/apikit/apimtauth/client.go
-- and NewManager of pkg/apikit/apinotify/manager.go, with the round trippers that each puts before it.
use mtlogin.Prelude.{
  ℕ, String, ◌≡◌, refl, Option, none, some, List, [], ◌∷◌, Exec, arith, is_empty, if◌then◌else◌,
  inl, inr,
}
use mathlib.Core.Path.{subst}
use mtlogin.Errors.{GoError, ok}
use mtlogin.Context.{Ctx, proxy_from_context}
use mtlogin.Http.{
  Headers, Request, RoundTripper, chain, proxy, get_json, post_json, do_request, status_and_body,
}
use mtlogin.Transport.{
  Strings, HeadersConfig, cookie_scoped, common_headers, unix_no_auth, stamp, before_ts, after_ts,
  delete_header,
}
use mtlogin.Notify.Channels.{Sender}
use mtlogin.TlsClient as Tls
use mtlogin.TlsClient.Closing.{run}
use mtlogin.TlsClient.Options.{settings}
use mtlogin.TlsClient.Fits.{JarFits, acquire_kept}
use mtlogin.TlsClient.Jars.{run_kept}

-- NewClient of apimtauth; its logging changes nothing.
abbrev pub auth_round_trip :
    {W : Type 0} → Strings → Exec W ℕ → HeadersConfig → RoundTripper W → RoundTripper W
auth_round_trip T unix cfg base =
    chain base (proxy ∷ cookie_scoped ∷ common_headers unix cfg ∷ unix_no_auth T ∷ [])

-- The sender of NewManager, with the error of a context and the clock; its logging changes nothing.
abbrev pub manager_sender :
    {W : Type 0} → (Ctx → Exec W (Option GoError)) → Exec W ℕ → Exec W ℕ → RoundTripper W → Sender W
manager_sender ctx_err unix unix_milli base = record {
  get_json = λ ctx. get_json (chain base (proxy ∷ [])) ctx;
  post_json = λ ctx. post_json (chain base (proxy ∷ [])) ctx;
  ctx_err = ctx_err;
  unix = unix;
  unix_milli = unix_milli;
}

module _ {W H J F B : Type 0} (L : Tls.Library W H J F B)
    (options_of : H → List (Tls.ClientOption J)) where
  -- What holds of the jar of every HTTP client that a request can get, after any requests and calls of
  -- Close on a new TLSClient.
  abbrev pub Gets : Request → (Option J → Type 0) → Type 0
  Gets req P =
      (as_ : List Tls.Action) (w : W) (h : H)
      → (Tls.acquire L req (run L as_ w).0 (run L as_ w).1).0.0 ≡ ok h
      → P (settings (options_of h)).jar

  abbrev pub SomeJar : Option J → Type 0
  SomeJar o = (j : J) × (o ≡ some j)

  abbrev pub NoJar : Option J → Type 0
  NoJar o = o ≡ none

  fitted :
      (scope s : String) (o : Option J) (js : List (String × J))
      → scope ≡ s
      → JarFits L options_of scope o js
      → JarFits L options_of s o js
  fitted scope s o js e h = subst (λ x. JarFits L options_of x o js) e h

  with_jar : (o : Option J) (js : List (String × J)) → JarFits L options_of "mteam" o js → SomeJar o
  with_jar o js (inl (e, h)) = cc
  with_jar o js (inr (e, (j, h, k))) = (j, h)

  without_jar : (o : Option J) (js : List (String × J)) → JarFits L options_of "" o js → NoJar o
  without_jar o js (inl (e, h)) = h
  without_jar o js (inr (e, h)) = cc

  module _
      (built : (os : List (Tls.ClientOption J)) (w : W) (h : H)
        → (L.new_http_client os w).0 ≡ ok h
        → options_of h ≡ os) where
    gets_some : (req : Request) → req.cookie_scope ≡ "mteam" → Gets req SomeJar
    gets_some req e as_ w h got =
        let x = run L as_ w in
        let fits =
          (acquire_kept L options_of built req x.0 x.1 (run_kept L options_of built as_ w)).2 h
            got in
        with_jar (settings (options_of h)).jar (Tls.acquire L req x.0 x.1).0.1.jars
          (fitted req.cookie_scope "mteam" _ _ e fits.4)

    gets_none : (req : Request) → req.cookie_scope ≡ "" → Gets req NoJar
    gets_none req e as_ w h got =
        let x = run L as_ w in
        let fits =
          (acquire_kept L options_of built req x.0 x.1 (run_kept L options_of built as_ w)).2 h
            got in
        without_jar (settings (options_of h)).jar (Tls.acquire L req x.0 x.1).0.1.jars
          (fitted req.cookie_scope "" _ _ e fits.4)

    module _ {V : Type 0} (T : Strings) (ctx_err : Ctx → Exec V (Option GoError))
        (unix unix_milli : Exec V ℕ) (cfg : HeadersConfig) (base : RoundTripper V) where
      abbrev pub notices : Sender V
      notices = manager_sender ctx_err unix unix_milli base

      abbrev dressed : Request → V → Headers
      dressed req v = after_ts cfg (stamp unix (before_ts cfg req.headers) v).0

      -- the request of a login below NewClient
      abbrev outgoing : Ctx → Request → V → Request
      outgoing ctx req v = record req {
        proxy = (if is_empty req.proxy then proxy_from_context ctx else req.proxy);
        cookie_scope = "mteam";
        user_agent = (if is_empty req.user_agent then cfg.user_agent else req.user_agent);
        headers =
            (if T.contains req.url "/api/system/unix"
              then delete_header T "Did" (delete_header T "Authorization" (dressed req v))
              else dressed req v);
      }

      login-sent :
          (ctx : Ctx) (req : Request) (v : V)
          → auth_round_trip T unix cfg base ctx req v
            ≡ base ctx (outgoing ctx req v) (stamp unix (before_ts cfg req.headers) v).1
      unfolding common_headers unix_no_auth
      login-sent ctx req v = ground arith

      -- A login's request is sent once to the round tripper below NewClient, in a form whose HTTP client
      -- has a cookie jar; the requests that the notification channels send reach the one below NewManager
      -- once, in a form whose HTTP client has none. So no notification carries the cookies of a login.
      -- The HTTP clients are those of a TLSClient after any requests and calls of Close, where tls-client
      -- makes each with the options that it is given.
      pub cookies_apart :
          ((ctx : Ctx) (req : Request) (v : V)
            → (out : Request) × (u : V) × (auth_round_trip T unix cfg base ctx req v
                ≡ base ctx out u)
              × Gets out SomeJar)
          × ((ctx : Ctx) (server url body : String) (headers : Headers) (v : V)
              → (out : Request) × (notices.post_json ctx server url body headers v ≡ (
                status_and_body base ctx (do_request base ctx out v).0,
                (do_request base ctx out v).1,
              ))
                × Gets out NoJar)
          × ((ctx : Ctx) (server url : String) (headers : Headers) (v : V)
              → (out : Request) × (notices.get_json ctx server url headers v ≡ (
                status_and_body base ctx (do_request base ctx out v).0,
                (do_request base ctx out v).1,
              ))
                × Gets out NoJar)
      unfolding common_headers unix_no_auth post_json get_json do_request
      cookies_apart = (
        λ ctx req v.
            (outgoing ctx req v, _, login-sent ctx req v, gets_some (outgoing ctx req v) refl),
        λ ctx server url body headers v. (_, refl, gets_none _ refl),
        λ ctx server url headers v. (_, refl, gets_none _ refl),
      )
