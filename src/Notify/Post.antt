-- ===== src/Notify/Post.antt =====
-- What each notification channel of pkg/apikit/apinotify posts, and how it reads the answer: `Send` in
-- dingtalk.go, feishu.go, ntfy.go, qqpush.go, telegram.go and weixin.go. The keys of a Go map are in
-- the order of `json.Marshal`.
use mtlogin.Prelude.{
  ℕ, String, ◌<>◌, Bool, true, false, ◌&&◌, not, Option, none, some, List, [], ◌∷◌, Exec, ℤ, pos,
  is_empty, ◌==◌, if◌then◌else◌,
}
use mtlogin.Decimal.{decimal}
use mtlogin.Errors.{GoError, text, wrapped, Result, ok, err}
use mtlogin.Context.{Ctx}
use mtlogin.Http.{Headers}
use mtlogin.Json.{
  Json, null, boolean, integer, string, array, object, Items, nil, cons, Fields, end, field,
}
use mtlogin.Log.{sanitize_text}
use mtlogin.Notify.Channels.{
  DingTalk, Feishu, Ntfy, QqPush, Telegram, Weixin, Library, Sender, is_zero,
}

-- {"content": body}
abbrev one_field : String → String → Json
one_field key value = object (field key (string value) end)

abbrev items : List String → Items
items [] = nil
items (s ∷ ss) = cons (string s) (items ss)

-- a nil slice is null
abbrev mobiles : Option (List String) → Json
mobiles none = null
mobiles (some ss) = array (items ss)

-- len(s) == 0
abbrev no_mobiles : Option (List String) → Bool
no_mobiles none = true
no_mobiles (some []) = true
no_mobiles (some (s ∷ ss)) = false

-- if s != "" { the field } for `omitempty`
abbrev optional_field : String → String → Fields → Fields
optional_field key value fs = if is_empty value then fs else field key (string value) fs

module _ (L : Library) where
  abbrev clean : String → String
  clean = sanitize_text L.texts

  -- signedWebhookURL
  abbrev pub signed_webhook_url : String → String → String → String
  signed_webhook_url webhook_url timestamp sign =
      webhook_url
      <> (if L.contains webhook_url "?" then "&" else "?")
      <> L.encode_values (("timestamp", timestamp) ∷ ("sign", sign) ∷ [])

  abbrev pub dingtalk_message : DingTalk → String → Json
  dingtalk_message d body = object (
      field "msgtype" (string "text") (
        field "text" (one_field "content" body) (
          field "at"
            (object (
              field "atMobiles" (mobiles d.at_mobiles)
                (field "isAtAll" (boolean (no_mobiles d.at_mobiles)) end)))
            end)))

  abbrev pub feishu_message : String → String → String → Json
  feishu_message timestamp sign body = object (
      optional_field "timestamp" timestamp (
        optional_field "sign" sign
          (field "msg_type" (string "text") (field "content" (one_field "text" body) end))))

  abbrev pub ntfy_message : String → String → Json
  ntfy_message topic body = object (
      field "topic" (string topic) (
        field "title" (string "M-Team 登录保活通知") (
          field "message" (string body) (
            field "priority" (integer (pos 1)) (
              field "tags" (array (cons (string "bread") nil)) (
                field "actions"
                  (array (
                    cons
                      (object (
                        field "action" (string "view") (
                          field "label" (string "手动登录")
                            (field "url" (string "https://kp.m-team.cc/") end))))
                      nil))
                  (field "click" (string "https://kp.m-team.cc/") end)))))))

  abbrev pub qqpush_message : QqPush → String → Json
  qqpush_message q body = object (
      field "content"
        (array
          (cons (object (field "msgtype" (string "text") (field "text" (string body) end))) nil))
        (field "qq" (string q.qq) (field "token" (string q.token) end)))

  abbrev pub telegram_message : ℤ → String → Json
  telegram_message chat_id body =
      object (field "chat_id" (integer chat_id) (field "text" (string body) end))

  abbrev pub weixin_message : Weixin → String → Json
  weixin_message w body = object (
      field "agentid" (integer w.agent_id) (
        field "msgtype" (string "text")
          (field "text" (one_field "content" body) (field "touser" (string w.user_id) end))))

  -- The reading of each channel's response, where the request was answered.
  abbrev pub read_dingtalk : ℕ × String → Option GoError
  read_dingtalk (status, body) =
      if not (status == 200)
      then some (text ("dingtalk robot return status=" <> decimal status <> ": " <> clean body))
      else if is_empty body
      then none
      else elim (L.decode_verdict body) [
        | err e ↦ some (wrapped "dingtalk robot response decode failed: " e)
        | ok v ↦
            if not (is_zero v.code)
            then some (
                text (
                  "dingtalk robot business error errcode="
                  <> L.integer_text v.code
                  <> ": "
                  <> clean v.message))
            else none
      ]

  abbrev pub read_feishu : ℕ × String → Option GoError
  read_feishu (status, body) =
      if not (status == 200)
      then some (text ("API返回错误: " <> clean body))
      else if is_empty body
      then none
      else elim (L.decode_verdict body) [
        | err e ↦ some (wrapped "飞书响应解析失败: " e)
        | ok v ↦
            if not (is_zero v.code)
            then some (text ("飞书业务返回错误 code=" <> L.integer_text v.code <> ": " <> clean v.message))
            else none
      ]

  abbrev pub read_status : (String → GoError) → ℕ × String → Option GoError
  read_status fault (status, body) = if not (status == 200) then some (fault body) else none

  abbrev pub read_weixin : ℕ × String → Option GoError
  read_weixin (status, body) =
      if not (status == 200)
      then some (text ("weixin send status=" <> decimal status <> ": " <> body))
      else elim (L.decode_verdict body) [
        | err e ↦ some e
        | ok v ↦ if not (is_zero v.code) then some (text ("发送消息失败: " <> v.message)) else none
      ]

  abbrev pub read_weixin_token : ℕ × String → Result String
  read_weixin_token (status, body) =
      if not (status == 200)
      then err (text ("weixin token status=" <> decimal status <> ": " <> body))
      else elim (L.decode_token body) [
        | err e ↦ err e
        | ok token ↦ if is_empty token then err (text "获取 Access Token 失败") else ok token
      ]

  -- auth of ntfy
  abbrev pub ntfy_auth : Ntfy → String
  ntfy_auth n =
      if not (is_empty n.token)
      then "Bearer " <> n.token
      else if not (is_empty n.username) && not (is_empty n.password)
      then "Basic " <> L.base64 (n.username <> ":" <> n.password)
      else ""

  module _ {W : Type 0} (E : Sender W) where
    -- a message that is put into JSON, posted, and answered
    abbrev pub post_message :
        Ctx
        → String
        → String
        → Headers
        → (GoError → GoError)
        → (GoError → GoError)
        → (ℕ × String → Option GoError)
        → Json
        → Exec W (Option GoError)
    post_message ctx name url headers unmarshaled unsent read message w = elim (L.marshal message) [
      | err e ↦ (some (unmarshaled e), w)
      | ok body ↦
          let (r, w) = E.post_json ctx name url body headers w in
          (elim r [ err e ↦ some (unsent e) | ok answer ↦ read answer ], w)
    ]

    abbrev same : GoError → GoError
    same e = e

    -- DingTalk.Send; a secret that is empty signs too
    unfoldable pub send_dingtalk : DingTalk → Ctx → String → String → Exec W (Option GoError)
    send_dingtalk d ctx title body w =
        let (now, w) = E.unix_milli w in
        let timestamp = decimal now in
        let sign = L.hmac_sha256_base64 (timestamp <> "\n" <> d.secret) d.secret in
        post_message ctx "dingtalk"
          (signed_webhook_url
            ("https://oapi.dingtalk.com/robot/send?access_token=" <> d.webhook_token) timestamp
            sign)
          [] (wrapped "marshal message error: ") same read_dingtalk (dingtalk_message d body) w

    -- FeishuBot.Send
    unfoldable pub send_feishu : Feishu → Ctx → String → String → Exec W (Option GoError)
    send_feishu f ctx title body w =
        let deliver =
          post_message ctx "feishu" f.webhook_url [] (wrapped "序列化消息失败: ") (wrapped "HTTP请求失败: ")
            read_feishu in
        if is_empty f.secret
        then deliver (feishu_message "" "" body) w
        else (let (now, w) = E.unix w in
            deliver
              (feishu_message (decimal now)
                (L.hmac_sha256_base64 "" (decimal now <> "\n" <> f.secret)) body)
              w)

    -- Ntfy.Send
    unfoldable pub send_ntfy : Ntfy → Ctx → String → String → Exec W (Option GoError)
    send_ntfy n ctx title body =
        post_message ctx "ntfy" n.url
          (if is_empty (ntfy_auth n) then [] else ("Authorization", ntfy_auth n) ∷ [])
          (wrapped "序列化消息失败: ") (wrapped "HTTP请求失败: ") (read_status (λ b. text ("API返回错误: " <> b)))
          (ntfy_message n.topic body)

    -- QQPush.Send
    unfoldable pub send_qqpush : QqPush → Ctx → String → String → Exec W (Option GoError)
    send_qqpush q ctx title body =
        post_message ctx "qqpush" ("https://wx.scjtqs.com/qq/push/pushMsg?token=" <> q.token)
          ((
            "User-Agent",
            "Mozilla/5.0 (Windows NT 6.1; WOW64; rv:32.0) Gecko/20100101 Firefox/32.0",
          )
            ∷ [])
          same same
          (λ a. read_status (λ b. text ("qqpush return status=" <> decimal a.0 <> ": " <> b)) a)
          (qqpush_message q body)

    -- TelegramBot.Send
    unfoldable pub send_telegram : Telegram → Ctx → String → String → Exec W (Option GoError)
    send_telegram t ctx title body w =
        let (e, w) = E.ctx_err ctx w in
        elim e [
          | some q ↦ (some q, w)
          | none ↦
              post_message ctx "telegram"
                ("https://api.telegram.org/bot" <> t.bot_token <> "/sendMessage") [] same same
                (λ a.
                  read_status
                    (λ b. text ("telegram return status=" <> decimal a.0 <> ": " <> clean b)) a)
                (telegram_message t.chat_id body) w
        ]

    -- Weixin.accessToken
    unfoldable pub access_token : Weixin → Ctx → Exec W (Result String)
    access_token x ctx w =
        let (r, w) =
          E.get_json ctx "weixin"
            ("https://qyapi.weixin.qq.com/cgi-bin/gettoken?corpid=" <> x.corp_id <> "&corpsecret="
              <> x.agent_secret)
            [] w in
        (elim r [ err e ↦ err e | ok answer ↦ read_weixin_token answer ], w)

    -- Weixin.Send
    unfoldable pub send_weixin : Weixin → Ctx → String → String → Exec W (Option GoError)
    send_weixin x ctx title body w =
        let (r, w) = access_token x ctx w in
        elim r [
          | err e ↦ (some e, w)
          | ok token ↦
              post_message ctx "weixin"
                ("https://qyapi.weixin.qq.com/cgi-bin/message/send?access_token=" <> token) [] same
                same read_weixin (weixin_message x body) w
        ]
