-- ===== src/Notify/Enabled.antt =====
-- The channels of a manager, for the configuration that it is made of.
use mtlogin.Prelude.{
  ◌⊎◌, String, ◌≡◌, refl, sym, ap, ◌∙◌, false, Option, none, List, [], ◌∷◌, ◌++◌, map, arith, pos,
  inl, inr, Bool-cases, Option-cases, Exec, if◌then◌else◌,
}
use mathlib.Core.List.{append-nil, append_assoc, map-append}
use mathlib.Core.Path.{subst}
use mtlogin.Errors.{GoError, ok, err, Result-cases}
use mtlogin.Context.{Ctx}
use mtlogin.Domain.{Float64}
use mtlogin.Protocol.{Decoded}
use mtlogin.Config as Config
use mtlogin.Notify.Channels.{
  Common, Library, Sender, validate_qqpush, validate_weixin, validate_dingtalk, validate_telegram,
  validate_feishu, validate_ntfy,
}
use mtlogin.Notify.Manager.{
  NotifyConfig, Manager, validate_notify, new_manager, add_enabled, add, sends, send_base,
  system_proxy_for, telegram_proxy,
}
use mtlogin.Notify.Post.{
  send_qqpush, send_weixin, send_dingtalk, send_telegram, send_feishu, send_ntfy,
}
use mtlogin.Notify.Loading.{load_config, load_toml, notify_config, empty_config, validated}

abbrev enabled_names : List (Common × String) → List String
enabled_names [] = []
enabled_names ((c, name) ∷ cs) = if c.enabled then name ∷ enabled_names cs else enabled_names cs

-- The enabled channels of a configuration, by name.
unfoldable pub enabled_channels : NotifyConfig → List String
enabled_channels c = enabled_names (
    (c.qqpush.common, "qqpush")
    ∷ (c.weixin.common, "weixin")
    ∷ (c.dingtalk.common, "dingtalk")
    ∷ (c.telegram.common, "telegram")
    ∷ (c.feishu.common, "feishu")
    ∷ (c.ntfy.common, "ntfy")
    ∷ [])

-- What Validate has passed: the timeout, and each channel.
unfoldable pub Valid : Config.Library → Library → NotifyConfig → Type 0
Valid G L c =
    (G.le c.timeout G.nought ≡ false)
    × (validate_qqpush L c.qqpush ≡ none)
    × (validate_weixin L c.weixin ≡ none)
    × (validate_dingtalk L c.dingtalk ≡ none)
    × (validate_telegram L c.telegram ≡ none)
    × (validate_feishu L c.feishu ≡ none)
    × (validate_ntfy L c.ntfy ≡ none)

module _ {W : Type 0} (G : Config.Library) (L : Library) (E : Sender W) (log_id : Ctx → String)
    (notify_info : String → W → W) where
  abbrev pub names : Manager W → List String
  names m = map (λ item. item.name) m.notifiers

  names-add :
      (c : Common) (name : String) (send : Ctx → String → String → Exec W (Option GoError))
      (proxy : String) (m : Manager W) (cs : List (Common × String))
      → names (add_enabled G c name send proxy m) ++ enabled_names cs
        ≡ names m ++ enabled_names ((c, name) ∷ cs)
  names-add c name send proxy m cs = elim (Bool-cases c.enabled) [
    | inl e ↦ rw (e) (
        ap (λ l. l ++ enabled_names cs) (map-append (λ item. item.name) m.notifiers _)
        ∙ append_assoc (names m) (name ∷ []) (enabled_names cs))
    | inr e ↦ rw (e) refl
  ]

  names-new_manager :
      (c : NotifyConfig) (proxy : String)
      → names (new_manager G L E log_id notify_info c proxy) ≡ "base" ∷ enabled_channels c
  unfolding new_manager enabled_channels
  names-new_manager c proxy =
      let m : Manager W = record {
        notifiers = [];
        timeout =
            if G.lt G.nought c.timeout then G.seconds_duration c.timeout else pos 300000000000;
        proxy = proxy;
        closing = false;
      } in
      let m0 = add G "base" (sends (send_base log_id notify_info)) G.nought "" m in
      let m1 =
        add_enabled G c.qqpush.common "qqpush" (send_qqpush L E c.qqpush)
          (system_proxy_for m0 c.qqpush.common.use_system_proxy) m0 in
      let m2 =
        add_enabled G c.weixin.common "weixin" (send_weixin L E c.weixin)
          (system_proxy_for m1 c.weixin.common.use_system_proxy) m1 in
      let m3 =
        add_enabled G c.dingtalk.common "dingtalk" (send_dingtalk L E c.dingtalk)
          (system_proxy_for m2 c.dingtalk.common.use_system_proxy) m2 in
      let m4 =
        add_enabled G c.telegram.common "telegram" (send_telegram L E c.telegram)
          (telegram_proxy m3 c.telegram) m3 in
      let m5 =
        add_enabled G c.feishu.common "feishu" (send_feishu L E c.feishu)
          (system_proxy_for m4 c.feishu.common.use_system_proxy) m4 in
      let m6 = new_manager G L E log_id notify_info c proxy in
      sym (append-nil (names m6))
      ∙ names-add c.ntfy.common "ntfy" (send_ntfy L E c.ntfy)
          (system_proxy_for m5 c.ntfy.common.use_system_proxy) m5 ([])
      ∙ names-add c.feishu.common "feishu" (send_feishu L E c.feishu)
          (system_proxy_for m4 c.feishu.common.use_system_proxy) m4 ((c.ntfy.common, "ntfy") ∷ [])
      ∙ names-add c.telegram.common "telegram" (send_telegram L E c.telegram)
          (telegram_proxy m3 c.telegram) m3
          ((c.feishu.common, "feishu") ∷ (c.ntfy.common, "ntfy") ∷ [])
      ∙ names-add c.dingtalk.common "dingtalk" (send_dingtalk L E c.dingtalk)
          (system_proxy_for m2 c.dingtalk.common.use_system_proxy) m2
          ((c.telegram.common, "telegram")
            ∷ (c.feishu.common, "feishu")
            ∷ (c.ntfy.common, "ntfy")
            ∷ [])
      ∙ names-add c.weixin.common "weixin" (send_weixin L E c.weixin)
          (system_proxy_for m1 c.weixin.common.use_system_proxy) m1
          ((c.dingtalk.common, "dingtalk")
            ∷ (c.telegram.common, "telegram")
            ∷ (c.feishu.common, "feishu")
            ∷ (c.ntfy.common, "ntfy")
            ∷ [])
      ∙ names-add c.qqpush.common "qqpush" (send_qqpush L E c.qqpush)
          (system_proxy_for m0 c.qqpush.common.use_system_proxy) m0
          ((c.weixin.common, "weixin")
            ∷ (c.dingtalk.common, "dingtalk")
            ∷ (c.telegram.common, "telegram")
            ∷ (c.feishu.common, "feishu")
            ∷ (c.ntfy.common, "ntfy")
            ∷ [])

  validated-Valid : (c : NotifyConfig) → validate_notify G L c ≡ none → Valid G L c
  unfolding validate_notify Valid
  validated-Valid c h = ground (arith, h)

  validated_ok :
      (decode : NotifyConfig → String → Decoded (NotifyConfig × List String)) (ten : Float64)
      (c d : NotifyConfig)
      → validated G L decode ten c ≡ ok d
      → Valid G L d
  validated_ok decode ten c d h = elim (Option-cases (validate_notify G L c)) [
    | inl e ↦ let q : c ≡ d = ground (arith, h, e) in subst (Valid G L) q (validated-Valid c e)
    | inr (q, e) ↦ ground (arith, h, e)
  ]

  load-Valid :
      (decode : NotifyConfig → String → Decoded (NotifyConfig × List String)) (ten : Float64)
      (path : String) (c : NotifyConfig)
      → load_config G L decode ten path ≡ ok c
      → Valid G L c
  unfolding load_config
  load-Valid decode ten path c h =
      let start = record (empty_config G L decode ten) { timeout = ten } in
      elim (Result-cases (load_toml G L decode ten path start)) [
        | inr (e, q) ↦ ground (arith, h, q)
        | inl (b, q) ↦
            let v : validated G L decode ten b ≡ ok c = ground (arith, h, q) in
            validated_ok decode ten b c v
      ]

  -- New makes a manager whatever is in conf/notify.toml: either the file is refused, and base is the only
  -- channel; or it is read to a configuration that Validate has passed, and the channels are base and
  -- those that the configuration enables, in their order.
  pub loaded_channels :
      (decode : NotifyConfig → String → Decoded (NotifyConfig × List String)) (ten : Float64)
      (path proxy : String)
      → let r = load_config G L decode ten path in
        let m = new_manager G L E log_id notify_info (notify_config G L decode ten r) proxy in
        ((e : GoError) × (r ≡ err e) × (names m ≡ "base" ∷ []))
        ⊎ ((c : NotifyConfig) × (r ≡ ok c) × (names m ≡ "base" ∷ enabled_channels c) × Valid G L c)
  unfolding enabled_channels
  loaded_channels decode ten path proxy =
      let of = notify_config G L decode ten in
      let channels : (c : NotifyConfig)
          → names (new_manager G L E log_id notify_info c proxy) ≡ "base" ∷ enabled_channels c =
        λ c. names-new_manager c proxy in
      elim (Result-cases (load_config G L decode ten path)) [
        | inr (e, h) ↦ inl (
          e,
          h,
          ap (λ r. names (new_manager G L E log_id notify_info (of r) proxy)) h
              ∙ channels (of (err e)),
        )
        | inl (c, h) ↦ inr (
          c,
          h,
          ap (λ r. names (new_manager G L E log_id notify_info (of r) proxy)) h ∙ channels c,
          load-Valid decode ten path c h,
        )
      ]
