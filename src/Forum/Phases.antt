-- ===== src/Forum/Phases.antt =====
-- pkg/apikit/apimtbrowse/forum.go: the phases of `BrowseForum`, over the requests of a session.
use mtlogin.Prelude.{
  ℕ, ◌≡◌, refl, String, ◌<>◌, Bool, true, false, ◌&&◌, ◌||◌, not, Option, none, some, List, [], ◌∷◌,
  Exec, ℤ, pos, negsuc, is_pos, map, ◌==◌, arith, if◌then◌else◌,
}
use mtlogin.Errors.{GoError, wrapped, sentinel, browse_business, Result, ok, err}
use mtlogin.Protocol.{ApiResponse, Decoded, decoded, undecoded}
use mtlogin.Context.{Ctx}
use mtlogin.Forum.{Forums, Topics}

-- The author of the last post of each forum comes in the order in which Go ranges over the map.
pub record ForumsData : Type 0 where
  pub forums_list : List ℤ
  pub last_post : List ℤ

pub record TopicSearchEntry : Type 0 where
  pub id : ℤ
  pub author : ℤ
  pub last_post_author_id : ℤ

-- The values of a JSON body.
pub data Value : Type 0 where
  string : String → Value
  number : ℕ → Value
  strings : List String → Value

-- `do` and `doJSON` of a session with the method POST, the decoding of the data in a response, and
-- `strconv.FormatInt` in base 10.
pub record Requests (W : Type 0) : Type 0 where
  pub post : Ctx → String → List (String × String) → Exec W (Result ApiResponse)
  pub post_json : Ctx → String → List (String × Value) → Exec W (Result ApiResponse)
  pub decode_forums : String → Decoded ForumsData
  pub decode_members : String → Decoded ℕ
  pub decode_topics : String → Decoded (List TopicSearchEntry)
  pub format_int : ℤ → String

infix 50 ◌=ℤ◌
abbrev pub ◌=ℤ◌ : ℤ → ℤ → Bool
pos a =ℤ pos b = a == b
pos a =ℤ negsuc b = false
negsuc a =ℤ pos b = false
negsuc a =ℤ negsuc b = a == b

abbrev pub member : ℤ → List ℤ → Bool
member a [] = false
member a (x ∷ xs) = x =ℤ a || member a xs

abbrev pub positive : List ℤ → List ℤ
positive [] = []
positive (x ∷ xs) = let rest = positive xs in if is_pos x then x ∷ rest else rest

-- The loops over authors: what is positive and not in `seen` is appended, and then seen.
unfoldable pub unseen : List ℤ → List ℤ → List ℤ
unseen seen [] = []
unseen seen (x ∷ xs) =
    if is_pos x && not (member x seen) then x ∷ unseen (x ∷ seen) xs else unseen seen xs

module _ {W : Type 0} (Q : Requests W) (ctx : Ctx) where
  abbrev undecodable : String → String → GoError
  undecodable what e = wrapped (": " <> what <> " data decode: " <> e) (sentinel browse_business)

  abbrev read_forums : Decoded ForumsData → Result Forums
  read_forums (undecoded e) = err (undecodable "forums" e)
  read_forums (decoded d) =
      ok (record { fids = positive d.forums_list; author_ids = unseen [] d.last_post })

  unfoldable pub phase_visit_forums : Exec W (Result Forums)
  phase_visit_forums w =
      let (r, w) = Q.post ctx "/api/forum/forums" [] w in
      (
        elim r [
          | err e ↦ err (wrapped "forums request: " e)
          | ok resp ↦ read_forums (Q.decode_forums resp.data_json)
        ],
        w,
      )

  abbrev read_members : Decoded ℕ → Option GoError
  read_members (undecoded e) = some (undecodable "member bases" e)
  read_members (decoded n) = none

  unfoldable pub phase_resolve_members : List ℤ → Exec W (Option GoError)
  phase_resolve_members ids w =
      let (r, w) =
        Q.post_json ctx "/api/member/bases" (("ids", strings (map Q.format_int ids)) ∷ []) w in
      (
        elim r [
          | err e ↦ some (wrapped "member bases request: " e)
          | ok resp ↦ read_members (Q.decode_members resp.data_json)
        ],
        w,
      )

  abbrev read_topics : Decoded (List TopicSearchEntry) → Result Topics
  read_topics (undecoded e) = err (undecodable "topic search" e)
  read_topics (decoded d) = ok (record {
    tids = positive (map (λ (t : TopicSearchEntry). t.id) d);
    author_ids = unseen [] (map (λ (t : TopicSearchEntry). t.author) d);
    last_post_author_ids = unseen [] (map (λ (t : TopicSearchEntry). t.last_post_author_id) d);
  })

  unfoldable pub phase_search_topics : ℤ → Exec W (Result Topics)
  phase_search_topics fid w =
      let (r, w) =
        Q.post_json ctx "/api/forum/topic/search"
          (("fid", string (Q.format_int fid))
            ∷ ("pageSize", number 100)
            ∷ ("pageNumber", number 1)
            ∷ [])
          w in
      (
        elim r [
          | err e ↦ err (wrapped "topic search request: " e)
          | ok resp ↦ read_topics (Q.decode_topics resp.data_json)
        ],
        w,
      )

  unfoldable pub phase_view_topic : ℤ → Exec W (Option GoError)
  phase_view_topic tid w =
      let (r, w) = Q.post ctx "/api/forum/topic/viewHits" (("tid", Q.format_int tid) ∷ []) w in
      elim r [
        | err e ↦ (some (wrapped "viewHits request: " e), w)
        | ok hits ↦
            let (r, w) = Q.post ctx "/api/forum/forums" [] w in
            elim r [
              | err e ↦ (some (wrapped "forums request: " e), w)
              | ok forums ↦
                  let (r, w) =
                    Q.post_json ctx "/api/forum/topic/detail"
                      (("tid", string (Q.format_int tid))
                        ∷ ("pageSize", number 20)
                        ∷ ("pageNumber", number 1)
                        ∷ [])
                      w in
                  (
                    elim r [ err e ↦ some (wrapped "topic detail request: " e) | ok detail ↦ none ],
                    w,
                  )
            ]
      ]

=ℤ→≡ : (a b : ℤ) → a =ℤ b ≡ true → a ≡ b
=ℤ→≡ (pos a) (pos b) h = ground arith
=ℤ→≡ (pos a) (negsuc b) h = ground arith
=ℤ→≡ (negsuc a) (pos b) h = ground arith
=ℤ→≡ (negsuc a) (negsuc b) h = ground arith

same : (a : ℤ) → a =ℤ a ≡ true
same (pos a) = ground arith
same (negsuc a) = ground arith

abbrev pub distinct : List ℤ → Bool
distinct [] = true
distinct (x ∷ xs) = not (member x xs) && distinct xs

-- What the loops over authors collect are the positive numbers that have not been seen before.
pub unseen-member :
    (a : ℤ) (seen xs : List ℤ)
    → member a (unseen seen xs) ≡ (is_pos a && (member a xs && not (member a seen)))
unfolding unseen
unseen-member a seen [] = ground arith
unseen-member a seen (x ∷ xs) =
    ground (arith, unseen-member a seen xs, unseen-member a (x ∷ seen) xs, =ℤ→≡ x a)

pub unseen-distinct : (seen xs : List ℤ) → distinct (unseen seen xs) ≡ true
unfolding unseen
unseen-distinct seen [] = refl
unseen-distinct seen (x ∷ xs) = ground (
  arith,
  unseen-distinct seen xs,
  unseen-distinct (x ∷ seen) xs,
  unseen-member x (x ∷ seen) xs,
  same x,
)

positive-member : (a : ℤ) (xs : List ℤ) → member a (positive xs) ≡ (is_pos a && member a xs)
positive-member a [] = ground arith
positive-member a (x ∷ xs) = ground (arith, positive-member a xs, =ℤ→≡ x a)

module _ {W : Type 0} (Q : Requests W) (ctx : Ctx) where
  -- Where `PhaseVisitForums` gets a response that it can decode, it finds the positive numbers of the
  -- forums, and the positive numbers of the authors of last posts, each of these once.
  pub phase_visit_forums_lem :
      (w : W) (resp : ApiResponse) (d : ForumsData) (f : Forums) (a : ℤ)
      → (Q.post ctx "/api/forum/forums" [] w).0 ≡ ok resp
      → Q.decode_forums resp.data_json ≡ decoded d
      → (phase_visit_forums Q ctx w).0 ≡ ok f
      → (member a f.fids ≡ (is_pos a && member a d.forums_list))
        × (member a f.author_ids ≡ (is_pos a && member a d.last_post))
        × (distinct f.author_ids ≡ true)
  unfolding phase_visit_forums
  phase_visit_forums_lem w resp d f a sent read found = ground (
    arith,
    positive-member a d.forums_list,
    unseen-member a [] d.last_post,
    unseen-distinct [] d.last_post,
  )
