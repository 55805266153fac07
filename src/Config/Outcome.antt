-- ===== src/Config/Outcome.antt =====
-- What a configuration that is accepted has, and what the errors of one that is not say.
use mtlogin.Prelude.{ℕ, ◌≡◌, ◌⊎◌, true, false, String, some, arith, is_empty}
use mtlogin.Errors.{GoError, ok, err, is_sentinel}
use mtlogin.Domain.{auth_empty, auth_complete}
use mtlogin.Domain.Codes.{code_of, as_coded}
use mtlogin.Protocol.{decoded, undecoded}
use mtlogin.Store.Contract.{Store}
use mtlogin.Context.{Ctx}
use mtlogin.Refresh.Contracts.{LoginClient}
use mtlogin.Refresh.Calls.{Sys}
use mtlogin.Refresh.Auth.{resolve}
use mtlogin.Refresh.Auth.Identity.{resolve_token_mode}
use mtlogin.Config.{
  Library, MteamConfig, RefreshConfig, AuthClientConfig, BrowseConfig, build_mteam_configs,
  validate_auth, refresh_auth_config, load_app, load_toml_with_meta, map_config_error,
}

module _ (G : Library) where
  -- Under a configuration that `buildMTeamConfigs` accepts, the identity from the configuration is
  -- complete or empty, and if it is empty, a user name and a password are set.
  pub accepted_identity :
      (raw : MteamConfig) (a : AuthClientConfig) (b : BrowseConfig) (r : RefreshConfig)
      → build_mteam_configs G raw ≡ ok (a, b)
      → let cfg = refresh_auth_config a r in
        (auth_complete cfg.token_auth ≡ true)
        ⊎ (auth_empty cfg.token_auth ≡ true)
          × (is_empty cfg.password_auth.username ≡ false)
          × (is_empty cfg.password_auth.password ≡ false)
  unfolding build_mteam_configs validate_auth auth_complete auth_empty
  accepted_identity raw a b r h = ground arith

  -- Under a configuration that `buildMTeamConfigs` accepts, with an identity in it, `Resolve` returns
  -- that identity without any call.
  pub accepted_resolves :
      {W : Type 0} (St : Store W) (L : LoginClient W St.view) (ctx : Ctx) (y : Sys W)
      (raw : MteamConfig) (a : AuthClientConfig) (b : BrowseConfig) (r : RefreshConfig)
      → build_mteam_configs G raw ≡ ok (a, b)
      → let cfg = refresh_auth_config a r in
        auth_empty cfg.token_auth ≡ false
        → resolve cfg St L ctx y
          ≡ (ok (record { state = cfg.token_auth; epoch = 0; token_mode = true }), y)
  accepted_resolves St L ctx y raw a b r h given =
      let cfg = refresh_auth_config a r in
      ground (arith, accepted_identity raw a b r h, resolve_token_mode cfg St L ctx y given)

  -- The code of the error of a configuration that is not there or not accepted: 100000 if the file
  -- cannot be read, 100001 if it cannot be parsed, and 100002 otherwise.
  abbrev pub load_code : String → ℕ
  load_code path = elim (G.read_file path) [
    | undecoded e ↦ 100000
    | decoded source ↦ elim (G.decode_toml source) [
      | undecoded e ↦ 100001
      | decoded loaded ↦ 100002
    ]
  ]

  -- Where `LoadApp` fails, the business code that the application reports is 100000 if the file
  -- cannot be read, 100001 if it can be read but not parsed, and 100002 if it can be parsed.
  pub load_error_codes :
      (path : String) (e : GoError)
      → load_app G path ≡ err e
      → code_of (some (map_config_error e)) ≡ load_code path
  unfolding load_app load_toml_with_meta map_config_error is_sentinel code_of as_coded
  load_error_codes path e h = ground arith
