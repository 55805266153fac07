-- ===== src/Logging/Exchange.antt =====
-- The clients with their logging: NewClient of pkg/apikit/apimtauth/client.go and of
-- pkg/apikit/apimtbrowse/client.go, and NewManager of pkg/apikit/apinotify/manager.go.
use mtlogin.Prelude.{ℕ, ◌-◌, ◌≡◌, refl, [], ◌∷◌, ◌++◌, Exec, arith}
use mtlogin.Context.{Ctx}
use mtlogin.Log.{entry_text}
use mtlogin.Http.{Request, RoundTripper, chain, proxy}
use mtlogin.Transport.{Strings, HeadersConfig, cookie_scoped, common_headers, unix_no_auth}
use mtlogin.Scopes.{auth_round_trip}
use mtlogin.Logging.{Library, Logged, unlogged, below, log_event, http_entry, logging}

module _ {W : Type 0} (L : Library) (now : Exec W ℕ) where
  -- the round tripper of NewClient, of either client of the server
  abbrev pub server_round_trip :
      Strings → Exec W ℕ → HeadersConfig → RoundTripper W → RoundTripper (Logged W)
  server_round_trip T unix cfg base = chain (unlogged base) (
      logging L now ∷ proxy ∷ cookie_scoped ∷ common_headers (below unix) cfg ∷ unix_no_auth T ∷ [])

  -- the round tripper of NewManager
  abbrev pub notify_round_trip : RoundTripper W → RoundTripper (Logged W)
  notify_round_trip base = chain (unlogged base) (logging L now ∷ proxy ∷ [])

  -- An exchange through quiet, which keeps no log, between two readings of the clock: base is sent one
  -- request, and the log has one more line, which is that of this request.
  abbrev pub LoggedOnce :
      RoundTripper W → RoundTripper W → RoundTripper (Logged W) → Ctx → Request → Logged W → Type 0
  LoggedOnce base quiet loud ctx req s =
      let (begin, w) = now s.world in
      let (reply, w') = quiet ctx req w in
      let (finish, w'') = now w' in
      (out : Request) × (u : W) × (quiet ctx req w ≡ base ctx out u)
      × (loud ctx req s ≡ (
        reply,
        record {
          world = w'';
          request = out;
          lines =
              s.lines
              ++ entry_text (http_entry L ctx (log_event L ctx out reply (finish - begin))) ∷ [];
        },
      ))

  -- Each exchange of a client of the server, and of the notifications, has the reply and the effects
  -- that it has without the log, between two readings of the clock; what the round tripper below is sent
  -- is one request, and one line is added to the HTTP log, made from that request and the reply.
  pub logging_lem :
      (T : Strings) (unix : Exec W ℕ) (cfg : HeadersConfig) (base : RoundTripper W) (ctx : Ctx)
      (req : Request) (s : Logged W)
      → LoggedOnce base
          (auth_round_trip T unix cfg base)
          (server_round_trip T unix cfg base)
          ctx
          req
          s
        × LoggedOnce base (chain base (proxy ∷ [])) (notify_round_trip base) ctx req s
  unfolding logging common_headers unix_no_auth
  logging_lem T unix cfg base ctx req s = ((_, _, refl, ground arith), (_, _, refl, ground arith))
