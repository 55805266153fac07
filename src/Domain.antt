-- ===== src/Domain.antt =====
-- internal/domain: the business models, the coded errors and what of them a user is shown.
pub mod Codes
use mtlogin.Prelude.{ℕ, String, Bool, ◌&&◌, not, is_empty, ℤ}

pub record AuthState : Type 0 where
  pub token : String
  pub did : String
  pub visitor_id : String

abbrev pub no_auth : AuthState
no_auth = record { token = ""; did = ""; visitor_id = "" }

unfoldable pub auth_empty : AuthState → Bool
auth_empty s = is_empty s.token && (is_empty s.did && is_empty s.visitor_id)

unfoldable pub auth_complete : AuthState → Bool
auth_complete s = not (is_empty s.token) && (not (is_empty s.did) && not (is_empty s.visitor_id))

pub record LoginRequest : Type 0 where
  pub username : String
  pub password : String
  pub totp_secret : String
  pub visitor_id : String

-- A float64 by its bits.
pub record Float64 : Type 0 where
  pub bits : ℕ

pub record Profile : Type 0 where
  pub username : String
  pub uploaded_bytes : ℤ
  pub downloaded_bytes : ℤ
  pub bonus : Float64
  pub last_login : String
  pub last_browse : String
