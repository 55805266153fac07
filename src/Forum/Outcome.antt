-- ===== src/Forum/Outcome.antt =====
-- What `BrowseForum` of pkg/apikit/apimtbrowse/forum.go tells its caller.
use mtlogin.Prelude.{Bool, false, ◌≡◌, List, ℤ, arith, is_some}
use mtlogin.Context.{Ctx}
use mtlogin.Forum.{
  Session, Seen, Answer, Topics, stops, view_topic, visit_topic, resolve_posters, resolve_authors,
  search_topics, visit_forum, browse_forum,
}

-- The flag says whether an update went through, and an error is one that is passed on.
abbrev pub Told : {W : Type 0} → Answer × Seen W → Type 0
Told (a, y) = (a.0 ≡ y.updated) × (is_some a.1 ≡ stops a.1)

module _ {W : Type 0} (S : Session W) (ctx : Ctx) where
  view_topic-Told :
      (flag : Bool) (tid : ℤ) (y : Seen W) → flag ≡ y.updated → Told (view_topic S ctx flag tid y)
  unfolding view_topic
  view_topic-Told flag tid y h = ground arith

  visit_topic-Told :
      (flag : Bool) (tids : List ℤ) (y : Seen W)
      → flag ≡ y.updated
      → Told (visit_topic S ctx flag tids y)
  unfolding visit_topic
  visit_topic-Told flag tids y h = grind (arith, view_topic-Told)

  resolve_posters-Told :
      (flag : Bool) (t : Topics) (y : Seen W)
      → flag ≡ y.updated
      → Told (resolve_posters S ctx flag t y)
  unfolding resolve_posters
  resolve_posters-Told flag t y h = grind (arith, visit_topic-Told)

  resolve_authors-Told :
      (flag : Bool) (t : Topics) (y : Seen W)
      → flag ≡ y.updated
      → Told (resolve_authors S ctx flag t y)
  unfolding resolve_authors
  resolve_authors-Told flag t y h = grind (arith, resolve_posters-Told)

  search_topics-Told :
      (flag : Bool) (fid : ℤ) (y : Seen W)
      → flag ≡ y.updated
      → Told (search_topics S ctx flag fid y)
  unfolding search_topics
  search_topics-Told flag fid y h = grind (arith, resolve_authors-Told)

  visit_forum-Told :
      (fids : List ℤ) (y : Seen W) → y.updated ≡ false → Told (visit_forum S ctx fids y)
  unfolding visit_forum
  visit_forum-Told fids y h = grind (arith, search_topics-Told)

  -- The flag that `BrowseForum` returns is true exactly if one of the updates of the last visit that
  -- it made went through, and every error that it returns is one to pass on: that the context has
  -- ended, or that the server refuses the login.
  pub browse_forum-Told :
      (w : W) → Told (browse_forum S ctx (record { world = w; updated = false }))
  unfolding browse_forum
  browse_forum-Told w = grind (arith, visit_forum-Told)
