-- ===== src/Forum.antt =====
-- pkg/apikit/apimtbrowse/forum.go: `BrowseForum`, which visits a random forum and a random topic of it
-- and updates the time of the last visit on the way.
pub mod Outcome
pub mod Phases
pub mod Keeps
use mtlogin.Prelude.{
  ℕ, zero, suc, ◌<◌, Bool, true, false, ◌||◌, not, Option, none, some, List, [], ◌∷◌, Exec, ℤ, pos,
  length, is_some, if◌then◌else◌,
}
use mtlogin.Errors.{
  GoError, Result, ok, err, is_sentinel, canceled, deadline_exceeded, browse_auth_failed,
}
use mtlogin.Context.{Ctx}

-- What `PhaseVisitForums` finds.
pub record Forums : Type 0 where
  pub fids : List ℤ
  pub author_ids : List ℤ

-- What `PhaseSearchTopics` finds.
pub record Topics : Type 0 where
  pub tids : List ℤ
  pub author_ids : List ℤ
  pub last_post_author_ids : List ℤ

-- The methods of a `Session` that `BrowseForum` calls, over a world `W`, and `rand.Intn`, which
-- draws a number below its argument.
pub record Session (W : Type 0) : Type 0 where
  pub phase_visit_forums : Ctx → Exec W (Result Forums)
  pub phase_resolve_members : Ctx → List ℤ → Exec W (Option GoError)
  pub phase_search_topics : Ctx → ℤ → Exec W (Result Topics)
  pub phase_view_topic : Ctx → ℤ → Exec W (Option GoError)
  pub warmup : Ctx → Exec W (Option GoError)
  pub update_last_browse : Ctx → Exec W (Option GoError)
  pub intn : ℕ → Exec W ℕ

-- The world, and for theorems only whether some `UpdateLastBrowse` has succeeded.
pub record Seen (W : Type 0) : Type 0 where
  pub world : W
  pub updated : Bool

unfoldable pub should_propagate : GoError → Bool
unfolding is_sentinel
should_propagate e =
    is_sentinel canceled e || is_sentinel deadline_exceeded e || is_sentinel browse_auth_failed e

-- err != nil && shouldPropagateForumError(err)
abbrev pub stops : Option GoError → Bool
stops none = false
stops (some e) = should_propagate e

-- fids[i]; the index is always in range
abbrev pub nth : List ℤ → ℕ → ℤ
nth [] i = pos 0
nth (x ∷ xs) zero = x
nth (x ∷ xs) (suc i) = nth xs i

abbrev pub empty : List ℤ → Bool
empty [] = true
empty (_ ∷ _) = false

abbrev pub Answer : Type 0
Answer = Bool × Option GoError

-- The end of a phase that the browsing does not go on without.
abbrev pub give_up : Bool → GoError → Answer
give_up flag e = if should_propagate e then (flag, some e) else (flag, none)

module _ {W : Type 0} (S : Session W) (ctx : Ctx) where
  abbrev on : {A : Type 0} → Exec W A → Exec (Seen W) A
  on m y = let (a, w) = m y.world in (a, record y { world = w })

  abbrev update : Exec (Seen W) (Option GoError)
  update y =
      let (e, w) = S.update_last_browse ctx y.world in
      (e, record { world = w; updated = y.updated || not (is_some e) })

  -- forum.go, from `PhaseViewTopic` on
  unfoldable pub view_topic : Bool → ℤ → Exec (Seen W) Answer
  view_topic flag tid y =
      let (e, y) = on (S.phase_view_topic ctx tid) y in
      elim e [ some q ↦ (give_up flag q, y) | none ↦ ((flag, none), y) ]

  -- from the choice of a topic on
  unfoldable pub visit_topic : Bool → List ℤ → Exec (Seen W) Answer
  visit_topic flag tids y =
      let (k, y) = on (S.intn (length tids)) y in
      let (w, y) = on (S.warmup ctx) y in
      if stops w
      then ((flag, w), y)
      else (let (u, y) = update y in
          if stops u then ((flag, u), y) else view_topic (flag || not (is_some u)) (nth tids k) y)

  unfoldable pub resolve_posters : Bool → Topics → Exec (Seen W) Answer
  resolve_posters flag t y =
      if empty t.last_post_author_ids
      then visit_topic flag t.tids y
      else (let (e, y) = on (S.phase_resolve_members ctx t.last_post_author_ids) y in
          if stops e then ((flag, e), y) else visit_topic flag t.tids y)

  unfoldable pub resolve_authors : Bool → Topics → Exec (Seen W) Answer
  resolve_authors flag t y =
      if empty t.author_ids
      then resolve_posters flag t y
      else (let (e, y) = on (S.phase_resolve_members ctx t.author_ids) y in
          if stops e then ((flag, e), y) else resolve_posters flag t y)

  -- from `PhaseSearchTopics` on
  unfoldable pub search_topics : Bool → ℤ → Exec (Seen W) Answer
  search_topics flag fid y =
      let (r, y) = on (S.phase_search_topics ctx fid) y in
      elim r [
        | err e ↦ (give_up flag e, y)
        | ok t ↦ if empty t.tids then ((flag, none), y) else resolve_authors flag t y
      ]

  -- from the choice of a forum on
  unfoldable pub visit_forum : List ℤ → Exec (Seen W) Answer
  visit_forum fids y =
      let (k, y) = on (S.intn (length fids)) y in
      let (w, y) = on (S.warmup ctx) y in
      if stops w
      then ((false, w), y)
      else (let (u, y) = update y in
          if stops u then ((false, u), y) else search_topics (not (is_some u)) (nth fids k) y)

  unfoldable pub browse_forum : Exec (Seen W) Answer
  browse_forum y =
      let (r, y) = on (S.phase_visit_forums ctx) y in
      elim r [
        | err e ↦ (give_up false e, y)
        | ok f ↦
            if empty f.fids
            then ((false, none), y)
            else if empty f.author_ids
            then visit_forum f.fids y
            else (let (e, y) = on (S.phase_resolve_members ctx f.author_ids) y in
                if stops e then ((false, e), y) else visit_forum f.fids y)
      ]
