-- ===== src/Refresh/Calls.antt =====
-- The calls that internal/refresh makes of its environment, each noted in a list with its arguments,
-- the latest first. The notes are read by theorems only.
use mtlogin.Prelude.{ℕ, String, List, [], ◌∷◌, Exec}
use mtlogin.Domain.{AuthState, LoginRequest}
use mtlogin.Refresh.Message.{Message}
use mtlogin.Context.{Ctx}

pub data Call : Type 0 where
  load_state load_account reset : Call
  save_state : AuthState → ℕ → Call
  save_account : String → ℕ → Call
  generate : Call
  login : Ctx → LoginRequest → Call
  new_session : AuthState → Call
  warmup profile browse update : Ctx → Call
  snapshot : Call
  notify : Ctx → Message → Call

pub record Sys (W : Type 0) : Type 0 where
  pub world : W
  pub calls : List Call

abbrev pub noted : {W A : Type 0} → Call → Exec W A → Exec (Sys W) A
noted c m y = let (a, w) = m y.world in (a, record { world = w; calls = c ∷ y.calls })

-- A run starts with no call made.
abbrev pub start : {W : Type 0} → W → Sys W
start w = record { world = w; calls = [] }
