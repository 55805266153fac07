-- ===== src/TlsClient/Options.antt =====
-- What the options of an HTTP client ask of tls-client, and that defaultNewClient asks for what is in its
-- configuration.
use mtlogin.Prelude.{
  ℕ, String, ◌≡◌, Bool, true, false, Option, none, some, List, [], ◌∷◌, arith, eq_iff, Option-cases,
  inl, inr,
}
use mtlogin.TlsClient.{
  ClientConfig, ClientOption, with_client_profile, with_random_tls_extension_order,
  with_not_follow_redirects, with_timeout_milliseconds, with_proxy_url, with_cookie_jar, Library,
  client_options, timeout_milliseconds,
}

-- How an HTTP client works, as far as the options say.
pub record Settings (J : Type 0) : Type 0 where
  pub profile_name : String
  pub proxy : String
  pub timeout_millis : ℕ
  pub disable_redirect : Bool
  pub jar : Option J

module _ {J : Type 0} where
  -- One option: each sets one thing.
  abbrev chosen : ClientOption J → Settings J → Settings J
  chosen (with_client_profile name) s = record s { profile_name = name }
  chosen with_random_tls_extension_order s = s
  chosen with_not_follow_redirects s = record s { disable_redirect = true }
  chosen (with_timeout_milliseconds n) s = record s { timeout_millis = n }
  chosen (with_proxy_url proxy) s = record s { proxy = proxy }
  chosen (with_cookie_jar jar) s = record s { jar = some jar }

  abbrev with_options : List (ClientOption J) → Settings J → Settings J
  with_options [] s = s
  with_options (o ∷ os) s = with_options os (chosen o s)

  -- Without an option, a client has no proxy, no timeout and no jar, and follows redirects.
  unfoldable pub settings : List (ClientOption J) → Settings J
  settings os = with_options os (record {
    profile_name = "";
    proxy = "";
    timeout_millis = 0;
    disable_redirect = false;
    jar = none;
  })

module _ {W H J F B : Type 0} (L : Library W H J F B) where
  pub settings-client_options :
      (c : ClientConfig J)
      → settings (client_options L c) ≡ record {
        profile_name = c.profile_name;
        proxy = c.proxy;
        timeout_millis = timeout_milliseconds L c.timeout;
        disable_redirect = c.disable_redirect;
        jar = c.jar;
      }
  unfolding settings client_options
  settings-client_options c = elim (Option-cases c.jar) [
    | inl j ↦ ground (arith, j, eq_iff c.proxy "")
    | inr (k, j) ↦ ground (arith, j, eq_iff c.proxy "")
  ]
