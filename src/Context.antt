-- ===== src/Context.antt =====
-- Contexts: pkg/log/context.go and what pkg/apicore/context.go keeps in them. A context is the value of
-- what it was derived from.
use mtlogin.Prelude.{String, ℤ, is_empty, is_pos, if◌then◌else◌}

-- The context of the process, one with a timeout, and one with a value for a key of apicore.
pub data Ctx : Type 0 where
  app : Ctx
  with_timeout : Ctx → ℤ → Ctx
  with_proxy_value with_server_value : Ctx → String → Ctx

-- Context.WithTimeout; a context that is only given a cancel function is as it was here.
abbrev pub bounded : Ctx → ℤ → Ctx
bounded c t = if is_pos t then with_timeout c t else c

-- WithProxy
abbrev pub with_proxy : Ctx → String → Ctx
with_proxy c p = if is_empty p then c else with_proxy_value c p

-- ProxyFromContext
unfoldable pub proxy_from_context : Ctx → String
proxy_from_context app = ""
proxy_from_context (with_timeout c t) = proxy_from_context c
proxy_from_context (with_proxy_value c p) = p
proxy_from_context (with_server_value c s) = proxy_from_context c

-- WithServer
abbrev pub with_server : Ctx → String → Ctx
with_server c s = if is_empty s then c else with_server_value c s

-- ServerFromContext
unfoldable pub server_from_context : Ctx → String
server_from_context app = ""
server_from_context (with_timeout c t) = server_from_context c
server_from_context (with_proxy_value c p) = server_from_context c
server_from_context (with_server_value c s) = s
