-- ===== src/Tests/NotifyTests.antt =====
-- pkg/apikit/apinotify and pkg/log at concrete inputs.
use mtlogin.Prelude.{
  arith, ℕ, String, ◌≡◌, ◌↔◌, All, refl, true, false, none, List, [], ◌∷◌, ◌++◌, map, pos, str_eq,
  if◌then◌else◌,
}
use mtlogin.Context.{Ctx, app}
use mtlogin.Errors.{sentinel, manager_closed}
use mtlogin.Notify.Desk.{
  Action, notify_call, send_end, notify_return, close_call, close_return, steps, advance, fresh,
  refused,
}
use mtlogin.Notify.Closing.{close_quiet}
use mtlogin.Notify.Once.{Delivered, notified_once}
use mtlogin.Json.{Json, integer, string, array, object, cons, nil, field, end}
use mtlogin.Log.{Texts, redacted, sanitize_json}
use mtlogin.Log.Secrets.{clean, sanitize_json_lem}
use mtlogin.Notify.Manager.{
  Message, info, Sent, returned, panicked, Managed, Manager, notify, send_context,
}
use mtlogin.Notify.Delivery.{Ran, Well, failures, all_leaves, notify_lem}
use mathlib.Core.List.{Permᴰ}

-- A call of Send: the channel, the context, the title and the body.
abbrev Call : Type 0
Call = String × Ctx × String × String

abbrev outcome_of : String → Sent
outcome_of name = if str_eq name "base" then returned none else panicked "closed"

abbrev channel : String → Managed (List Call)
channel name = record {
  name = name;
  send = λ c title body w. (outcome_of name, w ++ ((name, c, title, body) ∷ []));
  close = none;
  timeout = pos 3;
  proxy = "http://proxy";
}

abbrev manager : Manager (List Call)
manager = record {
  notifiers = channel "base" ∷ channel "ntfy" ∷ [];
  timeout = pos 300;
  proxy = "";
  closing = false;
}

abbrev message : Message
message = record { title = "t"; body = "b"; level = info; tags = []; metadata = [] }

abbrev backwards : List (Managed (List Call)) → List Call → List (Managed (List Call))
backwards (a ∷ b ∷ []) w = b ∷ a ∷ []
backwards items w = items

notify_lem_example :
    let (e, z) = notify backwards manager app message [] in
    (made : List (Managed (List Call) × Sent)) × Permᴰ manager.notifiers (map (λ p. p.0) made)
    × Ran app message made [] z
    × (all_leaves e ≡ failures made)
    × (e ≡ none ↔ All Well made)
notify_lem_example = notify_lem app message backwards manager [] refl (Permᴰ.swap refl refl)

abbrev pub texts : Texts
texts = record {
  to_lower = λ s. s;
  dashes_and_dots = λ s. s;
  contains = λ s t. str_eq s t;
  mask_bot_token = λ s. s;
  mask_values = λ s. s;
  parse_url = λ s. none;
  url_text = λ u. u.path;
  parse_query = λ s. none;
  encode_query = λ q. "";
  unmarshal = λ s. none;
  marshal = λ j. none;
}

abbrev posted : Json
posted = object (
    field "id" (integer (pos 1)) (
      field "users" (array (cons (object (field "password" (string "p") end)) nil))
        (field "token" (string "t") end)))

abbrev logged : Json
logged = object (
    field "id" (integer (pos 1)) (
      field "users" (array (cons (object (field "password" (string redacted) end)) nil))
        (field "token" (string redacted) end)))

posted_sanitized : sanitize_json texts posted ≡ logged
unfolding sanitize_json
posted_sanitized = refl

sanitize_json_lem_example :
    (clean texts (sanitize_json texts posted) ≡ true)
    × (clean texts posted ≡ true → sanitize_json texts posted ≡ posted)
sanitize_json_lem_example = sanitize_json_lem texts posted

-- A call of Notify whose channels end in the other order, and a Close that waits for it.
abbrev calls_closed : List Action
calls_closed =
    notify_call app message
    ∷ send_end 0 1
    ∷ close_call
    ∷ notify_return 0
    ∷ close_return
    ∷ send_end 0 0
    ∷ notify_return 0
    ∷ close_return
    ∷ []

abbrev calls_later : List Action
calls_later = notify_call app message ∷ send_end 0 0 ∷ []

close_quiet_example :
    let d = steps manager.notifiers calls_later (steps manager.notifiers calls_closed (fresh [])) in
    (d.calls ≡ [])
    × ((ctx : Ctx) (msg : Message)
        → advance manager.notifiers (notify_call ctx msg) d
          ≡ record d { answers = refused (sentinel manager_closed) ∷ d.answers })
    × ((i k : ℕ) → advance manager.notifiers (send_end i k) d ≡ d)
unfolding steps advance
close_quiet_example = close_quiet manager.notifiers calls_closed calls_later [] (ground arith)

notified_once_example :
    All (Delivered manager.notifiers) (steps manager.notifiers calls_closed (fresh [])).answers
notified_once_example = notified_once manager.notifiers calls_closed []

calls_world :
    (steps manager.notifiers calls_closed (fresh [])).world
    ≡ ("ntfy", send_context (channel "ntfy") app, "t", "b")
      ∷ ("base", send_context (channel "base") app, "t", "b")
      ∷ []
unfolding steps advance
calls_world = refl
