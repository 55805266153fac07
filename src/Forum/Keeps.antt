-- ===== src/Forum/Keeps.antt =====
-- A predicate that the requests keep is kept by the phases of pkg/apikit/apimtbrowse/forum.go, and one
-- that the phases keep by `BrowseForum`.
use mtlogin.Prelude.{ℕ, ℤ, String, Bool, List, arith, inl, inr}
use mtlogin.Errors.{Result-cases}
use mtlogin.Context.{Ctx}
use mtlogin.Forum.{
  Session, Seen, Topics, view_topic, visit_topic, resolve_posters, resolve_authors, search_topics,
  visit_forum, browse_forum,
}
use mtlogin.Forum.Phases.{
  Requests, Value, phase_visit_forums, phase_resolve_members, phase_search_topics, phase_view_topic,
}

module _ {W : Type 0} (P : W → Type 0) where
  pub record RequestsKeep (Q : Requests W) (ctx : Ctx) : Type 0 where
    pub post :
        (path : String) (fields : List (String × String)) (w : W)
        → P w
        → P (Q.post ctx path fields w).1
    pub post_json :
        (path : String) (body : List (String × Value)) (w : W)
        → P w
        → P (Q.post_json ctx path body w).1

  module _ (Q : Requests W) (ctx : Ctx) (K : RequestsKeep Q ctx) where
    pub phase_visit_forums-Keeps : (w : W) → P w → P (phase_visit_forums Q ctx w).1
    unfolding phase_visit_forums
    phase_visit_forums-Keeps w h = grind (arith, K.post)

    pub phase_resolve_members-Keeps :
        (ids : List ℤ) (w : W) → P w → P (phase_resolve_members Q ctx ids w).1
    unfolding phase_resolve_members
    phase_resolve_members-Keeps ids w h = grind (arith, K.post_json)

    pub phase_search_topics-Keeps : (fid : ℤ) (w : W) → P w → P (phase_search_topics Q ctx fid w).1
    unfolding phase_search_topics
    phase_search_topics-Keeps fid w h = grind (arith, K.post_json)

    pub phase_view_topic-Keeps : (tid : ℤ) (w : W) → P w → P (phase_view_topic Q ctx tid w).1
    unfolding phase_view_topic
    phase_view_topic-Keeps tid w h = grind (arith, K.post, K.post_json)

  pub record SessionKeeps (S : Session W) (ctx : Ctx) : Type 0 where
    pub forums : (w : W) → P w → P (S.phase_visit_forums ctx w).1
    pub members : (ids : List ℤ) (w : W) → P w → P (S.phase_resolve_members ctx ids w).1
    pub topics : (fid : ℤ) (w : W) → P w → P (S.phase_search_topics ctx fid w).1
    pub topic : (tid : ℤ) (w : W) → P w → P (S.phase_view_topic ctx tid w).1
    pub warmup : (w : W) → P w → P (S.warmup ctx w).1
    pub update : (w : W) → P w → P (S.update_last_browse ctx w).1
    pub intn : (n : ℕ) (w : W) → P w → P (S.intn n w).1

  module _ (S : Session W) (ctx : Ctx) (K : SessionKeeps S ctx) where
    view_topic-Keeps :
        (flag : Bool) (tid : ℤ) (y : Seen W) → P y.world → P (view_topic S ctx flag tid y).1.world
    unfolding view_topic
    view_topic-Keeps flag tid y h = grind (arith, K.topic)

    visit_topic-Keeps :
        (flag : Bool) (tids : List ℤ) (y : Seen W)
        → P y.world
        → P (visit_topic S ctx flag tids y).1.world
    unfolding visit_topic
    visit_topic-Keeps flag tids y h = grind (arith, K.intn, K.warmup, K.update, view_topic-Keeps)

    resolve_posters-Keeps :
        (flag : Bool) (t : Topics) (y : Seen W)
        → P y.world
        → P (resolve_posters S ctx flag t y).1.world
    unfolding resolve_posters
    resolve_posters-Keeps flag t y h = grind (arith, K.members, visit_topic-Keeps)

    resolve_authors-Keeps :
        (flag : Bool) (t : Topics) (y : Seen W)
        → P y.world
        → P (resolve_authors S ctx flag t y).1.world
    unfolding resolve_authors
    resolve_authors-Keeps flag t y h = grind (arith, K.members, resolve_posters-Keeps)

    search_topics-Keeps :
        (flag : Bool) (fid : ℤ) (y : Seen W)
        → P y.world
        → P (search_topics S ctx flag fid y).1.world
    unfolding search_topics
    search_topics-Keeps flag fid y h = grind (arith, K.topics, resolve_authors-Keeps)

    visit_forum-Keeps :
        (fids : List ℤ) (y : Seen W) → P y.world → P (visit_forum S ctx fids y).1.world
    unfolding visit_forum
    visit_forum-Keeps fids y h = grind (arith, K.intn, K.warmup, K.update, search_topics-Keeps)

    pub browse_forum-Keeps : (y : Seen W) → P y.world → P (browse_forum S ctx y).1.world
    unfolding browse_forum
    browse_forum-Keeps y h =
        let (r, w1) = S.phase_visit_forums ctx y.world in
        let kept = K.forums y.world h in
        elim (Result-cases r) [
          | inr (e, q) ↦ ground (arith, kept)
          | inl (f, q) ↦
              let w2 = (S.phase_resolve_members ctx f.author_ids w1).1 in
              let known = K.members f.author_ids w1 kept in
              ground (
                arith,
                kept,
                known,
                visit_forum-Keeps f.fids (record y { world = w1 }) kept,
                visit_forum-Keeps f.fids (record y { world = w2 }) known,
              )
        ]
