-- ===== src/App/Success.antt =====
-- What a run of the assembled program leaves in the database.
use mtlogin.Prelude.{
  ℕ, String, ◌≡◌, true, false, Option, none, some, List, [], ◌∷◌, arith, is_empty, inl, inr,
  Bool-cases, eq_iff, ap,
}
use mathlib.Core.Path.{subst}
use mtlogin.Errors.{Result, ok, err, Result-cases}
use mtlogin.Domain.{AuthState, LoginRequest, auth_empty, auth_complete}
use mtlogin.Config.{AppConfig, AuthClientConfig, BrowseConfig, refresh_auth_config}
use mtlogin.Context.{Ctx}
use mtlogin.TlsClient as Tls
use mtlogin.Login as Login
use mtlogin.Login.Outcome.{login_complete, is_empty-generate_visitor_id}
use mtlogin.Browse.Identity.{Holds, Holds-Methods, new_session-Holds, MethodsKeep, run_checks-keeps}
use mtlogin.Notify.Manager.{Managed, NotifyConfig}
use mtlogin.Store.{LevelDbStore}
use mtlogin.Store.Contract.{Store}
use mtlogin.Refresh.Calls
use mtlogin.Refresh.Calls.{Sys}
use mtlogin.Refresh.Checks.{run_checks}
use mtlogin.Refresh.Service.{Service, run}
use mtlogin.Refresh.Service.Stored.{run_token_mode_stored}
use mtlogin.Refresh.Service.Success.{Reliable, run-Bound}
use mtlogin.App.Assembly.{
  with_proxies, browse_server, browse_config, nothing_stored, apart, Net, Machine, Outside,
  Libraries, parse_proxy, machine_store, adapted_login, login_net, login_config, outside,
  machine_login, machine_client, machine_notifier, assemble,
}

ok-injective : {A : Type 0} (a b : A) → ok a ≡ ok b → a ≡ b
ok-injective a b h = cc

module _ {X H J F B D : Type 0} (P : Libraries) (L : Tls.Library X H J F B) (O : Outside X)
    (S : Store (LevelDbStore D))
    (schedule : List (Managed (Net X H J)) → Net X H J → List (Managed (Net X H J)))
    -- `strings.TrimSpace`
    (trim_nothing : P.login.trim_space "" ≡ "") where
  abbrev Whole : Type 0
  Whole = Machine D (Net X H J)

  not_empty : (s : String) → is_empty (P.login.trim_space s) ≡ false → is_empty s ≡ false
  not_empty s h = elim (Bool-cases (is_empty s)) [
    | inr p ↦ p
    | inl p ↦ ground (
      arith,
      ap (λ t. is_empty (P.login.trim_space t)) ((eq_iff s "").0 p),
      ap is_empty trim_nothing,
    )
  ]

  adapted_login_complete :
      (a : AuthClientConfig) (url : Option String) (c : Ctx) (r : LoginRequest) (v : Net X H J)
      (s : AuthState)
      → (adapted_login P L O a url c r v).0 ≡ ok s
      → auth_complete s ≡ true
  unfolding auth_complete
  adapted_login_complete a url c r v s h =
      let start : Login.Wire (Net X H J) = record { world = v; sent = [] } in
      let (x, y) =
        Login.login P.login (login_net P L O a) P.protocol (login_config a url) c r start in
      elim (Result-cases x) [
        | inr (e, q) ↦ ground arith
        | inl (t, q) ↦
            let full =
              login_complete P.login (login_net P L O a) P.protocol (login_config a url) c r start t
                q in
            ground (arith, full, not_empty t.token full.2)
      ]

  -- A session of the machine keeps the token and the visitor id that it was opened with, and a DID.
  machine_methods :
      (b : BrowseConfig) (url : Option String) (ctx : Ctx) (i : ℕ) (x : AuthState)
      → MethodsKeep (machine_client P L O S schedule b url) ctx i (λ w. Holds i x w.net)
  machine_methods b url ctx i x =
      let K =
        Holds-Methods P.protocol P.strings P.encoders P.forum (browse_server P L O)
          (λ n. outside P L O (O.intn n)) (browse_config b url) (nothing_stored P L O)
          (apart P L O b url) i x ctx in
      record {
        warmup = λ w h. K.warmup w.net h;
        profile = λ w h. K.profile w.net h;
        browse_forum = λ w h. K.browse_forum w.net h;
        update = λ w h. K.update w.net h;
      }

  module _ (cfg : AppConfig) (a : AuthClientConfig) (b : BrowseConfig) (c : NotifyConfig)
      (auth_url browse_url : Option String) where
    abbrev pub built : Service Whole ℕ
    built = record {
      timeout = P.config.seconds_duration cfg.refresh.timeout;
      auth = refresh_auth_config a cfg.refresh;
      format = P.format;
      store = machine_store S;
      login = machine_login P L O S schedule a auth_url;
      client = machine_client P L O S schedule b browse_url;
      notifier = some (machine_notifier P L O S schedule c cfg.system_proxy);
    }

    session_ends_complete :
        (rc : Ctx) (x : AuthState) (y : Sys Whole)
        → auth_complete x ≡ true
        → let (i, w) = built.client.new_session x y.world in
          let after =
            run_checks built.client rc i
              (record { world = w; calls = Calls.new_session x ∷ y.calls }) in
          auth_complete (built.client.snapshot i after.1.world).0 ≡ true
    unfolding auth_complete
    session_ends_complete rc x y h =
        let (i, w) = built.client.new_session x y.world in
        let opened =
          new_session-Holds P.protocol P.strings P.encoders P.forum (browse_server P L O)
            (λ n. outside P L O (O.intn n)) (browse_config b browse_url) (nothing_stored P L O)
            (apart P L O b browse_url) x y.world.net in
        let kept =
          run_checks-keeps built.client rc i (λ v. Holds i x v.net)
            (machine_methods b browse_url rc i x)
            (record { world = w; calls = Calls.new_session x ∷ y.calls }) opened in
        ground (arith, kept)

    built-Reliable : Reliable built
    built-Reliable = record {
      generated = λ w.
          is_empty-generate_visitor_id P.login (login_net P L O a) (outside P L O O.unix_nano)
            w.net.world;
      login_complete = λ ctx r w s h. adapted_login_complete a auth_url ctx r w.net.world s h;
      session_complete = λ rc x y h. session_ends_complete rc x y h;
    }

  module _ (cfg : AppConfig) (a : AuthClientConfig) (b : BrowseConfig) (c : NotifyConfig)
      (ctx : Ctx) (y : Sys Whole) where
    Leaves : Service Whole ℕ → Type 0
    Leaves V =
        let tokens = auth_empty (refresh_auth_config a cfg.refresh).token_auth in
        let before = S.view y.world.disk in
        let after = S.view (run V ctx y).1.world.disk in
        (tokens ≡ false → after ≡ before)
        × (tokens ≡ true
            → (run V ctx y).0 ≡ none
            → (auth_complete after.auth ≡ true) × (after.account ≡ a.password_auth.username))

    built-Leaves :
        (auth_url browse_url : Option String) → Leaves (built cfg a b c auth_url browse_url)
    unfolding Leaves
    built-Leaves auth_url browse_url =
        let V = built cfg a b c auth_url browse_url in
        (
          λ t. run_token_mode_stored V ctx y t,
          λ t h. run-Bound V (built-Reliable cfg a b c auth_url browse_url) ctx y t h,
        )

    assembled :
        (u v : Result (Option String)) (V : Service Whole ℕ)
        → with_proxies P L O S schedule cfg a b c u v ≡ ok V
        → Leaves V
    assembled (err e) v V h = cc
    assembled (ok u) (err e) V h = cc
    assembled (ok u) (ok v) V h = subst Leaves (ok-injective _ V h) (built-Leaves u v)

    -- In the token mode a run of the assembled program leaves the stored identity, its account and the
    -- epoch as they were; in the password mode, a run that returns no error leaves in the store an
    -- identity that has all three parts, bound to the account of the configuration.
    pub assemble_lem :
        (V : Service Whole ℕ)
        → assemble P L O S schedule cfg a b c ≡ ok V
        → let tokens = auth_empty (refresh_auth_config a cfg.refresh).token_auth in
          let before = S.view y.world.disk in
          let after = S.view (run V ctx y).1.world.disk in
          (tokens ≡ false → after ≡ before)
          × (tokens ≡ true
              → (run V ctx y).0 ≡ none
              → (auth_complete after.auth ≡ true) × (after.account ≡ a.password_auth.username))
    unfolding assemble Leaves
    assemble_lem V h =
        assembled (parse_proxy P.parse_url a.proxy) (parse_proxy P.parse_url b.proxy) V h
