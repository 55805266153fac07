-- ===== src/Transport.antt =====
-- pkg/apikit/internal/mttransport: the round trippers that give the requests to the server their
-- identity and their headers, and the state of a browsing session (state.go).
pub mod Outcome
use mtlogin.Prelude.{
  ℕ, zero, suc, String, Bool, true, false, ◌&&◌, Option, none, some, List, [], ◌∷◌, ◌++◌, Exec,
  is_empty, str_eq, if◌then◌else◌,
}
use mtlogin.Errors.{GoError}
use mtlogin.Domain.{AuthState, no_auth}
use mtlogin.Context.{Ctx}
use mtlogin.Decimal.{decimal}
use mtlogin.Http.{Headers, lookup, set, Request, Response, RoundTripper, Tripper}

-- `strings.EqualFold` and `strings.Contains`.
pub record Strings : Type 0 where
  pub equal_fold : String → String → Bool
  pub contains : String → String → Bool

-- The states of the sessions that were made, by number, beside the world that they act on. The lock
-- in a `State` makes each method one step.
pub record Sessions (W : Type 0) : Type 0 where
  pub world : W
  pub states : List AuthState

-- A session that does not exist has no handle; its state reads as the empty one.
abbrev pub nth_state : ℕ → List AuthState → AuthState
nth_state i [] = no_auth
nth_state zero (a ∷ as') = a
nth_state (suc i) (a ∷ as') = nth_state i as'

abbrev pub set_state : ℕ → AuthState → List AuthState → List AuthState
set_state i next [] = []
set_state zero next (a ∷ as') = next ∷ as'
set_state (suc i) next (a ∷ as') = a ∷ set_state i next as'

module _ {W : Type 0} where
  -- State.Snapshot
  abbrev pub snapshot : ℕ → Sessions W → AuthState
  snapshot i y = nth_state i y.states

  -- State.Set
  abbrev pub set_identity : ℕ → AuthState → Sessions W → Sessions W
  set_identity i next y = record y { states = set_state i next y.states }

  -- State.UpdateDID
  abbrev pub update_did : ℕ → String → Sessions W → Sessions W
  update_did i did y =
      if is_empty did then y else set_identity i (record (snapshot i y) { did = did }) y

-- if value != "" { req.Headers[key] = value }
abbrev pub set_unless_empty : String → String → Headers → Headers
set_unless_empty key value hs = if is_empty value then hs else set key value hs

-- if req.Headers[key] == "" { req.Headers[key] = value }
abbrev pub default_header : String → String → Headers → Headers
default_header key value hs = if is_empty (lookup key hs) then set key value hs else hs

module _ (T : Strings) where
  abbrev pub identify : AuthState → Headers → Headers
  identify a hs =
      set_unless_empty "visitorid" a.visitor_id
        (set_unless_empty "Did" a.did (set_unless_empty "Authorization" a.token hs))

  -- the loop over the headers of a response: the first that is a DID is taken
  abbrev pub rotated_did : Headers → Option String
  rotated_did [] = none
  rotated_did ((k, v) ∷ hs) = if T.equal_fold k "Did" then some v else rotated_did hs

  abbrev pub take_did : {W : Type 0} → ℕ → Option String → Sessions W → Sessions W
  take_did i none y = y
  take_did i (some did) y = update_did i did y

  abbrev pub did_of : Option Response → Option String
  did_of none = none
  did_of (some resp) = rotated_did resp.headers

  -- IdentityHeaders, for the state of session i
  unfoldable pub identity_headers : {W : Type 0} → ℕ → Tripper (Sessions W)
  identity_headers i next ctx req y =
      let (reply, y) = next ctx (record req { headers = identify (snapshot i y) req.headers }) y in
      (reply, take_did i (did_of reply.0) y)

  -- deleteHeader
  abbrev pub delete_header : String → Headers → Headers
  delete_header key [] = []
  delete_header key ((k, v) ∷ hs) =
      let rest = delete_header key hs in if T.equal_fold k key then rest else (k, v) ∷ rest

  -- UnixNoAuth
  unfoldable pub unix_no_auth : {W : Type 0} → Tripper W
  unix_no_auth next ctx req = next ctx (
      if T.contains req.url "/api/system/unix"
      then record req { headers = delete_header "Did" (delete_header "Authorization" req.headers) }
      else req)

-- CookieScope
abbrev pub cookie_scoped : {W : Type 0} → Tripper W
cookie_scoped next ctx req = next ctx (record req { cookie_scope = "mteam" })

pub record HeadersConfig : Type 0 where
  pub referer : String
  pub user_agent : String
  pub version : String
  pub web_version : String

-- The headers that `Headers` sets before and after `Ts`.
abbrev pub before_ts : HeadersConfig → Headers → Headers
before_ts cfg hs =
    default_header "Accept" "application/json;charset=UTF-8"
      (default_header "referer" cfg.referer hs)

abbrev pub after_ts : HeadersConfig → Headers → Headers
after_ts cfg hs =
    default_header "webversion" cfg.web_version (default_header "version" cfg.version hs)

-- req.Headers["Ts"], set to the time in seconds where it is empty
abbrev pub stamp : {W : Type 0} → Exec W ℕ → Headers → Exec W Headers
stamp unix hs w =
    if is_empty (lookup "Ts" hs)
    then (let (now, w) = unix w in (set "Ts" (decimal now) hs, w))
    else (hs, w)

-- Headers
unfoldable pub common_headers : {W : Type 0} → Exec W ℕ → HeadersConfig → Tripper W
common_headers unix cfg next ctx req w =
    let (hs, w) = stamp unix (before_ts cfg req.headers) w in
    next ctx
      (record req {
        user_agent = (if is_empty req.user_agent then cfg.user_agent else req.user_agent);
        headers = after_ts cfg hs;
      })
      w
