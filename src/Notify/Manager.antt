-- ===== src/Notify/Manager.antt =====
-- pkg/apikit/apinotify: the messages (message.go), the failures (errors.go), the channel base
-- (base/base.go), the configuration (config.go) and the manager (manager.go), and the adapter that
-- internal/app puts before it (notify_adapter.go).
use mtlogin.Prelude.{
  String, ◌<>◌, Bool, true, false, Option, none, some, List, [], ◌∷◌, ◌++◌, Exec, ℤ, pos, is_empty,
  if◌then◌else◌,
}
use mtlogin.Errors.{GoError, sentinel, text, wrapped, joined, manager_closed}
use mtlogin.Domain.{Float64}
use mtlogin.Config as Config
use mtlogin.Context.{Ctx, bounded, with_proxy}
use mtlogin.Log.{Entry, add_field, add_msg, entry_text}
use mtlogin.Refresh.Message.{Message as Report, MessageLevel}
use mtlogin.Notify.Channels.{
  Common, DingTalk, Feishu, Ntfy, QqPush, Telegram, Weixin, Library, Sender, validate_qqpush,
  validate_weixin, validate_dingtalk, validate_telegram, validate_feishu, validate_ntfy,
}
use mtlogin.Notify.Post.{
  send_qqpush, send_weixin, send_dingtalk, send_telegram, send_feishu, send_ntfy,
}

pub data Level : Type 0 where
  info success warning error : Level

pub record Message : Type 0 where
  pub title : String
  pub body : String
  pub level : Level
  pub tags : List String
  pub metadata : List (String × String)

-- SendError with a cause
abbrev pub send_error : String → GoError → GoError
send_error channel e = wrapped (channel <> ": notify send failed: ") e

-- How a call of Send ends: it returns, or it panics with a value that has this text.
pub data Sent : Type 0 where
  returned : Option GoError → Sent
  panicked : String → Sent

-- managedNotifier with its Notifier, and Close where that has one
pub record Managed (W : Type 0) : Type 0 where
  pub name : String
  pub send : Ctx → String → String → Exec W Sent
  pub close : Option (Exec W (Option GoError))
  pub timeout : ℤ
  pub proxy : String

pub record Manager (W : Type 0) : Type 0 where
  pub notifiers : List (Managed W)
  pub timeout : ℤ
  pub proxy : String
  pub closing : Bool

pub record NotifyConfig : Type 0 where
  pub timeout : Float64
  pub qqpush : QqPush
  pub weixin : Weixin
  pub dingtalk : DingTalk
  pub telegram : Telegram
  pub feishu : Feishu
  pub ntfy : Ntfy

-- errors.Join
abbrev pub join_errors : List GoError → Option GoError
join_errors [] = none
join_errors (e ∷ es) = elim (join_errors es) [ none ↦ some e | some f ↦ some (joined e f) ]

-- the first that is not nil
abbrev first_error : List (Option GoError) → Option GoError
first_error [] = none
first_error (none ∷ es) = first_error es
first_error (some e ∷ es) = some e

-- Config.Validate
unfoldable pub validate_notify : Config.Library → Library → NotifyConfig → Option GoError
validate_notify F L c =
    if F.le c.timeout F.nought
    then some (text "notify timeout must be > 0")
    else first_error (
        validate_qqpush L c.qqpush
        ∷ validate_weixin L c.weixin
        ∷ validate_dingtalk L c.dingtalk
        ∷ validate_telegram L c.telegram
        ∷ validate_feishu L c.feishu
        ∷ validate_ntfy L c.ntfy
        ∷ [])

-- what the goroutine of a channel puts into errCh
abbrev pub failure : String → Sent → Option GoError
failure name (returned none) = none
failure name (returned (some e)) = some (send_error name e)
failure name (panicked r) = some (send_error name (text ("panic: " <> r)))

abbrev pub push : Option GoError → List GoError → List GoError
push none es = es
push (some e) es = e ∷ es

abbrev pub level_of : MessageLevel → Level
level_of MessageLevel.success = success
level_of MessageLevel.warning = warning
level_of MessageLevel.error = error

module _ {W : Type 0} where
  -- systemProxyFor
  abbrev pub system_proxy_for : Manager W → Bool → String
  system_proxy_for m use_system_proxy = if use_system_proxy then m.proxy else ""

  -- telegramProxy
  abbrev pub telegram_proxy : Manager W → Telegram → String
  telegram_proxy m t =
      if is_empty t.proxy then system_proxy_for m t.common.use_system_proxy else t.proxy

  -- Manager.add of a channel without Close
  abbrev pub add :
      Config.Library
      → String
      → (Ctx → String → String → Exec W Sent)
      → Float64
      → String
      → Manager W
      → Manager W
  add F name send seconds proxy m = record m {
    notifiers =
        m.notifiers
        ++ (record {
          name = name;
          send = send;
          close = none;
          timeout = if F.lt F.nought seconds then F.seconds_duration seconds else m.timeout;
          proxy = proxy;
        }
            ∷ []);
  }

  -- a Send that returns
  abbrev pub sends :
      (Ctx → String → String → Exec W (Option GoError)) → Ctx → String → String → Exec W Sent
  sends send ctx title body w = let (e, w) = send ctx title body w in (returned e, w)

  -- if cfg.Enabled { m.add(...) }
  abbrev pub add_enabled :
      Config.Library
      → Common
      → String
      → (Ctx → String → String → Exec W (Option GoError))
      → String
      → Manager W
      → Manager W
  add_enabled F c name send proxy m =
      if c.enabled then add F name (sends send) c.timeout proxy m else m

  -- Send of base; `log_id` is LogID, and `notify_info` writes to the log of the notifications.
  abbrev pub send_base :
      (Ctx → String) → (String → W → W) → Ctx → String → String → Exec W (Option GoError)
  send_base log_id notify_info ctx title body w =
      let entry : Entry = record { kv = []; msg = "" } in
      let entry = if is_empty (log_id ctx) then entry else add_field "logid" (log_id ctx) entry in
      let entry = add_msg body (add_field "title" title (add_field "notify" "base" entry)) in
      (none, notify_info (entry_text entry) w)

  -- newManager, with SystemProxy(proxy); 300 s are the timeout where none is set.
  unfoldable pub new_manager :
      Config.Library
      → Library
      → Sender W
      → (Ctx → String)
      → (String → W → W)
      → NotifyConfig
      → String
      → Manager W
  new_manager F L E log_id notify_info c proxy =
      let m : Manager W = record {
        notifiers = [];
        timeout =
            if F.lt F.nought c.timeout then F.seconds_duration c.timeout else pos 300000000000;
        proxy = proxy;
        closing = false;
      } in
      let m = add F "base" (sends (send_base log_id notify_info)) F.nought "" m in
      let m =
        add_enabled F c.qqpush.common "qqpush" (send_qqpush L E c.qqpush)
          (system_proxy_for m c.qqpush.common.use_system_proxy) m in
      let m =
        add_enabled F c.weixin.common "weixin" (send_weixin L E c.weixin)
          (system_proxy_for m c.weixin.common.use_system_proxy) m in
      let m =
        add_enabled F c.dingtalk.common "dingtalk" (send_dingtalk L E c.dingtalk)
          (system_proxy_for m c.dingtalk.common.use_system_proxy) m in
      let m =
        add_enabled F c.telegram.common "telegram" (send_telegram L E c.telegram)
          (telegram_proxy m c.telegram) m in
      let m =
        add_enabled F c.feishu.common "feishu" (send_feishu L E c.feishu)
          (system_proxy_for m c.feishu.common.use_system_proxy) m in
      add_enabled F c.ntfy.common "ntfy" (send_ntfy L E c.ntfy)
        (system_proxy_for m c.ntfy.common.use_system_proxy) m

  -- sendCtx
  abbrev pub send_context : Managed W → Ctx → Ctx
  send_context item ctx = with_proxy (bounded ctx item.timeout) item.proxy

  -- The goroutines of Notify, each run as a whole, in the order of the list; what errCh then holds.
  abbrev pub deliver : Ctx → Message → List (Managed W) → Exec W (List GoError)
  deliver ctx msg [] w = ([], w)
  deliver ctx msg (item ∷ items) w =
      let (s, w) = item.send (send_context item ctx) msg.title msg.body w in
      let (es, w) = deliver ctx msg items w in (push (failure item.name s) es, w)

  -- Manager.Notify, for the order in which its goroutines get to run
  unfoldable pub notify :
      (List (Managed W) → W → List (Managed W))
      → Manager W
      → Ctx
      → Message
      → Exec W (Option GoError)
  notify schedule m ctx msg w =
      if m.closing
      then (some (sentinel manager_closed), w)
      else (let (es, w) = deliver ctx msg (schedule m.notifiers w) w in (join_errors es, w))

  abbrev pub close_all : List (Managed W) → Exec W (List GoError)
  close_all [] w = ([], w)
  close_all (item ∷ items) w = elim item.close [
    | none ↦ close_all items w
    | some f ↦
        let (e, w) = f w in
        let (es, w) = close_all items w in
        (elim e [ none ↦ es | some q ↦ wrapped (item.name <> ": ") q ∷ es ], w)
  ]

  -- Manager.Close, once no notification goes on
  unfoldable pub close_manager : Manager W → Exec W (Option GoError × Manager W)
  close_manager m w =
      let (es, w) = close_all m.notifiers w in ((join_errors es, record m { closing = true }), w)

  -- notifyAdapter.Notify
  abbrev pub adapted_notify :
      (List (Managed W) → W → List (Managed W)) → Manager W → Ctx → Report → Exec W (Option GoError)
  adapted_notify schedule m ctx r = notify schedule m ctx (record {
    title = r.title;
    body = r.body;
    level = level_of r.level;
    tags = [];
    metadata = [];
  })
