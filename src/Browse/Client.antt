-- ===== src/Browse/Client.antt =====
-- The browsing client behind its adapter in internal/app/mteam_adapter.go: it fulfils what
-- internal/refresh needs of a client.
use mtlogin.Prelude.{
  ℕ, ℤ, String, Bool, false, ◌≡◌, Option, none, some, List, Exec, arith, ◌∙◌, refl,
}
use mtlogin.Errors.{GoError, Result, ok, err}
use mtlogin.Domain.{Profile}
use mtlogin.Context.{Ctx}
use mtlogin.Http.{Request}
use mtlogin.Transport.{Strings, Sessions, snapshot, update_did}
use mtlogin.Protocol.{Library, Decoded, map_browse_error}
use mtlogin.Forum
use mtlogin.Forum.{Session, Seen}
use mtlogin.Forum.Keeps.{
  RequestsKeep, SessionKeeps, phase_visit_forums-Keeps, phase_resolve_members-Keeps,
  phase_search_topics-Keeps, phase_view_topic-Keeps, browse_forum-Keeps,
}
use mtlogin.Forum.Phases.{
  Requests, ForumsData, TopicSearchEntry, phase_visit_forums, phase_resolve_members,
  phase_search_topics, phase_view_topic,
}
use mtlogin.Store.Contract.{StoreView}
use mtlogin.Refresh.Contracts.{Client}
use mtlogin.Browse.{
  Encoders, Server, ClientConfig, on_world, do_form, do_json, new_session, warmup, profile,
  update_last_browse, warmup_endpoints,
}
use mtlogin.Browse.Keeps.{
  Closed, do_form-keeps, do_json-keeps, warm_up-keeps, profile-keeps, update_last_browse-keeps,
}

-- The decoding of what the forum answers, and `strconv.FormatInt`.
pub record ForumDecoders : Type 0 where
  pub decode_forums : String → Decoded ForumsData
  pub decode_members : String → Decoded ℕ
  pub decode_topics : String → Decoded (List TopicSearchEntry)
  pub format_int : ℤ → String

abbrev pub map_error : Option GoError → Option GoError
map_error none = none
map_error (some e) = some (map_browse_error e)

abbrev pub map_result : {A : Type 0} → Result A → Result A
map_result (ok a) = ok a
map_result (err e) = err (map_browse_error e)

module _ {W : Type 0} (G : Library) (T : Strings) (N : Encoders) (D : ForumDecoders) (E : Server W)
    (intn : ℕ → Exec W ℕ) (cfg : ClientConfig) where
  abbrev pub requests : ℕ → Requests (Sessions W)
  requests i = record {
    post = λ c path fields. do_form G T N E cfg i c "POST" path fields;
    post_json = λ c path body. do_json G T N E cfg i c "POST" path body;
    decode_forums = D.decode_forums;
    decode_members = D.decode_members;
    decode_topics = D.decode_topics;
    format_int = D.format_int;
  }

  abbrev pub forum_session : ℕ → Session (Sessions W)
  forum_session i = record {
    phase_visit_forums = λ c. phase_visit_forums (requests i) c;
    phase_resolve_members = λ c ids. phase_resolve_members (requests i) c ids;
    phase_search_topics = λ c fid. phase_search_topics (requests i) c fid;
    phase_view_topic = λ c tid. phase_view_topic (requests i) c tid;
    warmup = λ c. warmup G T N E cfg i c;
    update_last_browse = λ c. update_last_browse G T N E cfg i c;
    intn = λ n. on_world G T N E cfg (intn n);
  }

  -- The adapter's methods of a session.
  abbrev pub adapted_warmup : ℕ → Ctx → Exec (Sessions W) (Option GoError)
  adapted_warmup i ctx y = let (e, y) = warmup G T N E cfg i ctx y in (map_error e, y)

  abbrev pub adapted_profile : ℕ → Ctx → Exec (Sessions W) (Result Profile)
  adapted_profile i ctx y = let (r, y) = profile G T N E cfg i ctx y in (map_result r, y)

  abbrev pub adapted_browse_forum : ℕ → Ctx → Exec (Sessions W) (Bool × Option GoError)
  adapted_browse_forum i ctx y =
      let (a, z) =
        Forum.browse_forum (forum_session i) ctx (record { world = y; updated = false }) in
      ((a.0, map_error a.1), z.world)

  abbrev pub adapted_update : ℕ → Ctx → Exec (Sessions W) (Option GoError)
  adapted_update i ctx y = let (e, y) = update_last_browse G T N E cfg i ctx y in (map_error e, y)

  module _ (P : Sessions W → Type 0) (K : Closed G T N E cfg P) where
    pub record DrawKeeps : Type 0 where
      pub drawn : (n : ℕ) (y : Sessions W) → P y → P (on_world G T N E cfg (intn n) y).1

    module _ (R : DrawKeeps) (i : ℕ) (ctx : Ctx) where
      requests-keep : RequestsKeep P (requests i) ctx
      requests-keep = record {
        post = λ path fields y h. do_form-keeps G T N E cfg P K i ctx "POST" path fields y h;
        post_json = λ path body y h. do_json-keeps G T N E cfg P K i ctx "POST" path body y h;
      }

      session-keeps : SessionKeeps P (forum_session i) ctx
      session-keeps = record {
        forums = phase_visit_forums-Keeps P (requests i) ctx requests-keep;
        members = phase_resolve_members-Keeps P (requests i) ctx requests-keep;
        topics = phase_search_topics-Keeps P (requests i) ctx requests-keep;
        topic = phase_view_topic-Keeps P (requests i) ctx requests-keep;
        warmup = λ y h. warm_up-keeps G T N E cfg P K i ctx warmup_endpoints y h;
        update = λ y h. update_last_browse-keeps G T N E cfg P K i ctx y h;
        intn = R.drawn;
      }

      pub adapted_browse_forum-keeps : (y : Sessions W) → P y → P (adapted_browse_forum i ctx y).1
      adapted_browse_forum-keeps y h =
          browse_forum-Keeps P (forum_session i) ctx session-keeps
            (record { world = y; updated = false }) h

  -- The world has a store, and the calls of a session leave what it holds alone.
  pub record Undisturbed (v : W → StoreView) : Type 0 where
    pub ctx_err_keeps : (c : Ctx) (w : W) → v (E.ctx_err c w).1 ≡ v w
    pub unix_milli_keeps : (w : W) → v (E.unix_milli w).1 ≡ v w
    pub unix_keeps : (w : W) → v (E.unix w).1 ≡ v w
    pub multipart_keeps : (ps : List (String × String)) (w : W) → v (E.multipart_body ps w).1 ≡ v w
    pub round_trip_keeps : (c : Ctx) (r : Request) (w : W) → v (E.round_trip c r w).1 ≡ v w
    pub intn_keeps : (n : ℕ) (w : W) → v (intn n w).1 ≡ v w

  module _ (v : W → StoreView) (U : Undisturbed v) where
    abbrev pub session_view : Sessions W → StoreView
    session_view y = v y.world

    abbrev pub Same : StoreView → Sessions W → Type 0
    Same x y = session_view y ≡ x

    did-Same :
        (x : StoreView) (i : ℕ) (d : String) (y : Sessions W) → Same x y → Same x (update_did i d y)
    did-Same x i d y h = ground arith

    pub Same-Closed : (x : StoreView) → Closed G T N E cfg (Same x)
    Same-Closed x = record {
      ctx_err = λ c y h. U.ctx_err_keeps c y.world ∙ h;
      unix_milli = λ y h. U.unix_milli_keeps y.world ∙ h;
      unix = λ y h. U.unix_keeps y.world ∙ h;
      multipart = λ ps y h. U.multipart_keeps ps y.world ∙ h;
      round_trip = λ c r y h. U.round_trip_keeps c r y.world ∙ h;
      did = did-Same x;
    }

    pub Same-Draw : (x : StoreView) → DrawKeeps (Same x) (Same-Closed x)
    Same-Draw x = record { drawn = λ n y h. U.intn_keeps n y.world ∙ h }

    -- The client that internal/app hands to internal/refresh, with all that is asked of it.
    abbrev pub browse_client : Client (Sessions W) session_view ℕ
    browse_client = record {
      new_session = λ a. new_session G T N E cfg a;
      warmup = λ i c. adapted_warmup i c;
      profile = λ i c. adapted_profile i c;
      browse_forum = λ i c. adapted_browse_forum i c;
      update_last_browse = λ i c. adapted_update i c;
      snapshot = λ i y. (snapshot i y, y);
      new_session_keeps = λ a y. refl;
      warmup_keeps = λ i c y.
          warm_up-keeps G T N E cfg (Same (session_view y)) (Same-Closed (session_view y)) i c
            warmup_endpoints y refl;
      profile_keeps = λ i c y.
          profile-keeps G T N E cfg (Same (session_view y)) (Same-Closed (session_view y)) i c y
            refl;
      browse_forum_keeps = λ i c y.
          adapted_browse_forum-keeps (Same (session_view y)) (Same-Closed (session_view y))
            (Same-Draw (session_view y)) i c y refl;
      update_keeps = λ i c y.
          update_last_browse-keeps G T N E cfg (Same (session_view y))
            (Same-Closed (session_view y)) i c y refl;
      snapshot_keeps = λ i y. refl;
    }
