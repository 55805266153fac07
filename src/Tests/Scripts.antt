-- ===== src/Tests/Scripts.antt =====
-- Configurations, answers of the server and stores for the tests of internal/refresh.
use mtlogin.Prelude.{true, false, none, some}
use mtlogin.Errors.{GoError, text, ok}
use mtlogin.Domain.{AuthState, no_auth}
use mtlogin.Domain.Codes.{mt_auth_failed, with_cause}
use mtlogin.Store.{tdv, save_auth_state, save_auth_account}
use mtlogin.Refresh.Auth.{AuthConfig}
use mtlogin.Tests.Memory.{Script, World, blank, alice, memory}

abbrev pub first : AuthState
first = record { token = "t"; did = "d"; visitor_id = "visitor" }

abbrev pub rotated : AuthState
rotated = record { token = "t"; did = "d2"; visitor_id = "visitor" }

abbrev pub refused : GoError
refused = with_cause mt_auth_failed (text "session expired")

abbrev pub password_config : AuthConfig
password_config = record {
  password_auth = record { username = "alice"; password = "p"; totp_secret = "" };
  token_auth = no_auth;
  retry_on_auth_failure = false;
}

abbrev pub retry_config : AuthConfig
retry_config = record password_config { retry_on_auth_failure = true }

abbrev pub token_config : AuthConfig
token_config = record password_config { token_auth = first }

-- The login works, the update fails, and the forum makes up for it.
abbrev pub good : Script
good = record {
  login = ok first;
  warmup = none;
  profile = ok alice;
  update = some (text "timeout");
  forum = (true, none);
  last = rotated;
}

-- The session is refused at the forum.
abbrev pub bad : Script
bad = record good { forum = (false, some refused) }

-- A store that holds the identity of another account.
abbrev pub bob : World
bob = (save_auth_account memory "bob" 0 (save_auth_state memory tdv first 0 blank).1).1

-- A store that holds the identity of the configured account.
abbrev pub bound : World
bound = (save_auth_account memory "alice" 0 (save_auth_state memory tdv first 0 blank).1).1

abbrev pub broken : World
broken = record { db = record { table = λ k. none; broken = true }; epoch = 3 }
