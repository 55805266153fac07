-- ===== src/App/Assembly.antt =====
-- internal/app/app.go from the clients to the service, and the adapter of the login client in
-- mteam_adapter.go: the parts of the program put together over one machine, which is the store, the
-- sessions, the TLS client and what lies outside of the process.
use mtlogin.Prelude.{ℕ, String, refl, Option, none, some, List, [], Exec, is_empty, if◌then◌else◌}
use mtlogin.Errors.{Result, ok, err}
use mtlogin.Domain.{AuthState, LoginRequest, no_auth}
use mtlogin.Config as Config
use mtlogin.Config.{AppConfig, AuthClientConfig, BrowseConfig, refresh_auth_config}
use mtlogin.Context.{Ctx}
use mtlogin.Http.{Response, Reply, RoundTripper}
use mtlogin.Transport.{Strings, HeadersConfig, Sessions}
use mtlogin.TlsClient as Tls
use mtlogin.Protocol as Protocol
use mtlogin.Protocol.{map_auth_error}
use mtlogin.Login as Login
use mtlogin.Browse as Browse
use mtlogin.Browse.Client.{ForumDecoders, Undisturbed}
use mtlogin.Browse.Identity.{the_client}
use mtlogin.Notify.Channels as Channels
use mtlogin.Notify.Manager.{Managed, Manager, NotifyConfig, new_manager, adapted_notify}
use mtlogin.Scopes.{auth_round_trip, manager_sender}
use mtlogin.Store.{LevelDbStore}
use mtlogin.Store.Contract.{Store, StoreView}
use mtlogin.Refresh.Contracts.{LoginClient, Client, Notifier}
use mtlogin.Refresh.Message.{Format}
use mtlogin.Refresh.Service.{Service}

-- The TLS client and what lies outside of the process.
abbrev pub Net : Type 0 → Type 0 → Type 0 → Type 0
Net X H J = Tls.Pool H J × X

pub record Machine (D V : Type 0) : Type 0 where
  pub disk : LevelDbStore D
  pub net : Sessions V

-- What lies outside: the clocks, `rand.Int`, `rand.Intn`, the writer of multipart bodies, and the log
-- of the notifications.
pub record Outside (X : Type 0) : Type 0 where
  pub unix : Exec X ℕ
  pub unix_milli : Exec X ℕ
  pub unix_nano : Exec X ℕ
  pub rand_int : ℕ → Exec X (Result ℕ)
  pub intn : ℕ → Exec X ℕ
  pub multipart_body : List (String × String) → Exec X (String × String)
  pub notify_info : String → X → X

-- The libraries of the parts, the text of a parsed `url.URL`, and LogID of a context.
pub record Libraries : Type 0 where
  pub config : Config.Library
  pub protocol : Protocol.Library
  pub strings : Strings
  pub encoders : Browse.Encoders
  pub forum : ForumDecoders
  pub login : Login.Encoding
  pub channels : Channels.Library
  pub format : Format
  pub parse_url : String → Result String
  pub log_id : Ctx → String

-- The `if cfg.Proxy != ""` of both NewClient
abbrev pub parse_proxy : (String → Result String) → String → Result (Option String)
parse_proxy parse_url proxy =
    if is_empty proxy
    then ok none
    else elim (parse_url proxy) [ err e ↦ err e | ok text ↦ ok (some text) ]

module _ {D V : Type 0} where
  abbrev on_disk : {A : Type 0} → Exec (LevelDbStore D) A → Exec (Machine D V) A
  on_disk m w = let (a, d) = m w.disk in (a, record w { disk = d })

  abbrev on_sessions : {A : Type 0} → Exec (Sessions V) A → Exec (Machine D V) A
  on_sessions m w = let (a, y) = m w.net in (a, record w { net = y })

  abbrev on_net : {A : Type 0} → Exec V A → Exec (Machine D V) A
  on_net m w = let (a, v) = m w.net.world in (a, record w { net = record w.net { world = v } })

  -- The store of the machine.
  abbrev pub machine_store : Store (LevelDbStore D) → Store (Machine D V)
  machine_store S = record {
    load_auth_state = on_disk S.load_auth_state;
    load_auth_account = on_disk S.load_auth_account;
    save_auth_state = λ s e. on_disk (S.save_auth_state s e);
    save_auth_account = λ a e. on_disk (S.save_auth_account a e);
    reset_auth_state = on_disk S.reset_auth_state;
    view = λ w. S.view w.disk;
    load_state_keeps = λ w. S.load_state_keeps w.disk;
    load_state_reads = λ w. S.load_state_reads w.disk;
    load_account_keeps = λ w. S.load_account_keeps w.disk;
    load_account_reads = λ w. S.load_account_reads w.disk;
    save_state_done = λ s e w. S.save_state_done s e w.disk;
    save_state_refused = λ s e w. S.save_state_refused s e w.disk;
    save_state_failed = λ s e w. S.save_state_failed s e w.disk;
    save_account_done = λ a e w. S.save_account_done a e w.disk;
    save_account_refused = λ a e w. S.save_account_refused a e w.disk;
    save_account_failed = λ a e w. S.save_account_failed a e w.disk;
    reset_done = λ w. S.reset_done w.disk;
    reset_failed = λ w. S.reset_failed w.disk;
  }

abbrev pub reply_of : Result Response → Reply
reply_of (ok resp) = (some resp, none)
reply_of (err e) = (none, some e)

abbrev pub map_login : Result AuthState → Result AuthState
map_login (ok s) = ok s
map_login (err e) = err (map_auth_error e)

abbrev pub header_config : AuthClientConfig → HeadersConfig
header_config a = record {
  referer = a.referer;
  user_agent = a.user_agent;
  version = a.version;
  web_version = a.web_version;
}

abbrev pub login_config : AuthClientConfig → Option String → Login.Config
login_config a url = record { api_host = a.api_host; timeout = a.timeout; proxy_url = url }

abbrev pub browse_config : BrowseConfig → Option String → Browse.ClientConfig
browse_config b url = record {
  api_host = b.api_host;
  headers = record {
    referer = b.referer;
    user_agent = b.user_agent;
    version = b.version;
    web_version = b.web_version;
  };
  timeout = b.timeout;
  proxy_url = url;
}

module _ {X H J F B : Type 0} (P : Libraries) (L : Tls.Library X H J F B) (O : Outside X) where
  abbrev pub outside : {A : Type 0} → Exec X A → Exec (Net X H J) A
  outside m (p, x) = let (a, x) = m x in (a, (p, x))

  -- the TLSClient as the round tripper below all clients
  abbrev pub transport : RoundTripper (Net X H J)
  transport ctx req v = let (r, v) = Tls.round_trip L ctx req v in (reply_of r, v)

  -- what the login client calls
  abbrev pub login_net : AuthClientConfig → Login.Net (Net X H J)
  login_net a = record {
    ctx_err = λ c. outside (L.ctx_err c);
    unix_milli = outside O.unix_milli;
    unix = outside O.unix;
    rand_int = λ n. outside (O.rand_int n);
    round_trip = auth_round_trip P.strings (outside O.unix) (header_config a) transport;
  }

  -- authClientAdapter.Login
  abbrev pub adapted_login :
      AuthClientConfig → Option String → Ctx → LoginRequest → Exec (Net X H J) (Result AuthState)
  adapted_login a url ctx req v =
      let (r, y) =
        Login.login P.login (login_net a) P.protocol (login_config a url) ctx req
          (record { world = v; sent = [] }) in
      (map_login r, y.world)

  -- authClientAdapter.GenerateVisitorID
  abbrev pub adapted_visitor_id : AuthClientConfig → Exec (Net X H J) String
  adapted_visitor_id a = Login.generate_visitor_id P.login (login_net a) (outside O.unix_nano)

  abbrev pub browse_server : Browse.Server (Net X H J)
  browse_server = record {
    ctx_err = λ c. outside (L.ctx_err c);
    unix_milli = outside O.unix_milli;
    unix = outside O.unix;
    multipart_body = λ ps. outside (O.multipart_body ps);
    round_trip = transport;
  }

  -- The sessions hold no part of the store.
  abbrev pub nothing_stored : Net X H J → StoreView
  nothing_stored v = record { auth = no_auth; account = ""; epoch = 0 }

  abbrev pub apart :
      (b : BrowseConfig) (url : Option String)
      → Undisturbed P.protocol P.strings P.encoders P.forum browse_server
          (λ n. outside (O.intn n))
          (browse_config b url)
          nothing_stored
  apart b url = record {
    ctx_err_keeps = λ c v. refl;
    unix_milli_keeps = λ v. refl;
    unix_keeps = λ v. refl;
    multipart_keeps = λ ps v. refl;
    round_trip_keeps = λ c r v. refl;
    intn_keeps = λ n v. refl;
  }

  abbrev pub sessions_client :
      BrowseConfig → Option String → Client (Sessions (Net X H J)) (λ y. nothing_stored y.world) ℕ
  sessions_client b url =
      the_client P.protocol P.strings P.encoders P.forum browse_server (λ n. outside (O.intn n))
        (browse_config b url) nothing_stored (apart b url)

  -- NewManager, with SystemProxy
  abbrev pub new_notify_manager : NotifyConfig → String → Manager (Net X H J)
  new_notify_manager c system_proxy =
      new_manager P.config P.channels
        (manager_sender (λ ctx. outside (L.ctx_err ctx)) (outside O.unix) (outside O.unix_milli)
          transport)
        P.log_id (λ s v. (v.0, O.notify_info s v.1)) c system_proxy

  module _ {D : Type 0} (S : Store (LevelDbStore D))
      (schedule : List (Managed (Net X H J)) → Net X H J → List (Managed (Net X H J))) where
    abbrev Whole : Type 0
    Whole = Machine D (Net X H J)

    abbrev pub machine_login :
        AuthClientConfig → Option String → LoginClient Whole (machine_store S).view
    machine_login a url = record {
      generate_visitor_id = on_net (adapted_visitor_id a);
      login = λ c r. on_net (adapted_login a url c r);
      visitor_id_keeps = λ w. refl;
      login_keeps = λ c r w. refl;
    }

    abbrev pub machine_client : BrowseConfig → Option String → Client Whole (machine_store S).view ℕ
    machine_client b url =
        let C = sessions_client b url in
        record {
          new_session = λ a. on_sessions (C.new_session a);
          warmup = λ i c. on_sessions (C.warmup i c);
          profile = λ i c. on_sessions (C.profile i c);
          browse_forum = λ i c. on_sessions (C.browse_forum i c);
          update_last_browse = λ i c. on_sessions (C.update_last_browse i c);
          snapshot = λ i. on_sessions (C.snapshot i);
          new_session_keeps = λ a w. refl;
          warmup_keeps = λ i c w. refl;
          profile_keeps = λ i c w. refl;
          browse_forum_keeps = λ i c w. refl;
          update_keeps = λ i c w. refl;
          snapshot_keeps = λ i w. refl;
        }

    abbrev pub machine_notifier : NotifyConfig → String → Notifier Whole (machine_store S).view
    machine_notifier c system_proxy = record {
      notify = λ ctx m. on_net (adapted_notify schedule (new_notify_manager c system_proxy) ctx m);
      notify_keeps = λ ctx m w. refl;
    }

    -- The service that New publishes, where both clients can be made.
    abbrev pub with_proxies :
        AppConfig
        → AuthClientConfig
        → BrowseConfig
        → NotifyConfig
        → Result (Option String)
        → Result (Option String)
        → Result (Service Whole ℕ)
    with_proxies cfg a b c (err e) url = err e
    with_proxies cfg a b c (ok auth_url) (err e) = err e
    with_proxies cfg a b c (ok auth_url) (ok browse_url) = ok (record {
      timeout = P.config.seconds_duration cfg.refresh.timeout;
      auth = refresh_auth_config a cfg.refresh;
      format = P.format;
      store = machine_store S;
      login = machine_login a auth_url;
      client = machine_client b browse_url;
      notifier = some (machine_notifier c cfg.system_proxy);
    })

    -- New from the clients to the service, for the two configurations of buildMTeamConfigs and that of
    -- the notifications
    unfoldable pub assemble :
        AppConfig → AuthClientConfig → BrowseConfig → NotifyConfig → Result (Service Whole ℕ)
    assemble cfg a b c =
        with_proxies cfg a b c (parse_proxy P.parse_url a.proxy) (parse_proxy P.parse_url b.proxy)
