-- ===== src/Store/Opening.antt =====
-- internal/store/leveldb.go: Open with the permissions of the database's files, and Close.
use mtlogin.Prelude.{
  ℕ, String, ◌≡◌, refl, sym, ap, ◌∙◌, ◌⊎◌, inl, inr, Bool, Option, none, some, List, [], ◌∷◌, ◌++◌,
  Exec, arith, Option-cases, if◌then◌else◌,
}
use mathlib.Core.Path.{subst}
use mathlib.Core.List.{append-nil, append_assoc}
use mtlogin.Errors.{GoError, Result, ok, err, Result-cases}
use mtlogin.Store.{LevelDbStore}

-- What Open asks of LevelDB and of the file system: `filepath.Walk` visits a list of entries, each with
-- its path and whether it is a directory, or with an error.
pub record Files (D F : Type 0) : Type 0 where
  pub open_file : String → Exec F (Result D)
  pub close : D → Exec F (Option GoError)
  pub walk : String → F → List (Result (String × Bool))
  pub chmod : String → ℕ → Exec F (Option GoError)

pub data Call : Type 0 where
  opened closed : Call
  chmodded : String → ℕ → Call

-- The files, and the calls that went through to them, in their order.
pub record Disk (F : Type 0) : Type 0 where
  pub files : F
  pub calls : List Call

-- 0o700 and 0o600
abbrev pub mode_of : Bool → ℕ
mode_of is_dir = if is_dir then 448 else 384

-- CookieDBPath
abbrev pub cookie_db_path : String
cookie_db_path = "data/cookie.db"

module _ {D F : Type 0} (L : Files D F) where
  abbrev noted : {A : Type 0} → Call → Exec F A → Exec (Disk F) A
  noted c m d = let (a, f) = m d.files in (a, record { files = f; calls = d.calls ++ c ∷ [] })

  -- restrictPermissions, for the entries that are visited
  abbrev pub restrict : List (Result (String × Bool)) → Exec (Disk F) (Option GoError)
  restrict [] d = (none, d)
  restrict (err e ∷ es) d = (some e, d)
  restrict (ok (path, is_dir) ∷ es) d =
      let (e, d) = noted (chmodded path (mode_of is_dir)) (L.chmod path (mode_of is_dir)) d in
      let rest = restrict es d in elim e [ some q ↦ (some q, d) | none ↦ rest ]

  -- Close
  abbrev pub close_store : LevelDbStore D → Exec (Disk F) (Option GoError)
  close_store s = noted closed (L.close s.db)

  -- Open behind leveldb.OpenFile
  abbrev pub open_restricted : String → D → Exec (Disk F) (Result (LevelDbStore D))
  open_restricted path db d =
      let (e, d) = restrict (L.walk path d.files) d in
      elim e [
        | some q ↦ (err q, (noted closed (L.close db) d).1)
        | none ↦ (ok (record { db = db; epoch = 0 }), d)
      ]

  -- Open
  unfoldable pub open_store : String → Exec (Disk F) (Result (LevelDbStore D))
  open_store path d =
      let (r, f) = L.open_file path d.files in
      elim r [
        | err e ↦ (err e, record d { files = f })
        | ok db ↦ open_restricted path db (record { files = f; calls = d.calls ++ opened ∷ [] })
      ]

  -- OpenDefault
  abbrev pub open_default : Exec (Disk F) (Result (LevelDbStore D))
  open_default = open_store cookie_db_path

  -- The calls of chmod for all entries.
  abbrev modes : List (Result (String × Bool)) → List Call
  modes [] = []
  modes (err e ∷ es) = modes es
  modes (ok (path, is_dir) ∷ es) = chmodded path (mode_of is_dir) ∷ modes es

  restrict-calls :
      (es : List (Result (String × Bool))) (d : Disk F)
      → (restrict es d).0 ≡ none
      → (restrict es d).1.calls ≡ d.calls ++ modes es
  restrict-calls [] d h = sym (append-nil d.calls)
  restrict-calls (err e ∷ es) d h = cc
  restrict-calls (ok (path, is_dir) ∷ es) d h =
      elim (Option-cases (L.chmod path (mode_of is_dir) d.files).0) [
        | inr (q, e) ↦ ground (arith, h, e)
        | inl e ↦
            let c = chmodded path (mode_of is_dir) in
            let next : Disk F = record {
              files = (L.chmod path (mode_of is_dir) d.files).1;
              calls = d.calls ++ c ∷ [];
            } in
            let k : (restrict es next).0 ≡ none = ground (arith, h, e) in
            let step : (restrict (ok (path, is_dir) ∷ es) d).1.calls ≡ (restrict es next).1.calls =
              ground (arith, e) in
            step ∙ restrict-calls es next k ∙ append_assoc d.calls (c ∷ []) (modes es)
      ]

  -- How Open ends, for the entries that are visited.
  abbrev Ends : List (Result (String × Bool)) → Result (LevelDbStore D) × Disk F → Type 0
  Ends es r =
      ((e : GoError) × (r.0 ≡ err e)
        × ((r.1.calls ≡ []) ⊎ ((cs : List Call) × (r.1.calls ≡ cs ++ closed ∷ []))))
      ⊎ ((db : D) × (r.0 ≡ ok (record { db = db; epoch = 0 })) × (r.1.calls ≡ opened ∷ modes es))

  open_restricted-Ends :
      (path : String) (db : D) (d : Disk F)
      → d.calls ≡ opened ∷ []
      → Ends (L.walk path d.files) (open_restricted path db d)
  open_restricted-Ends path db d h =
      let es = L.walk path d.files in
      elim (Option-cases (restrict es d).0) [
        | inr (q, k) ↦ inl (
          q,
          rw (open_restricted, k) refl,
          rw (open_restricted, k) (inr ((restrict es d).1.calls, refl)),
        )
        | inl k ↦ inr (
          db,
          rw (open_restricted, k) refl,
          rw (open_restricted, k) (restrict-calls es d k ∙ ap (λ l. l ++ modes es) h),
        )
      ]

  -- Open either fails, and then the database was not opened or has been closed at the end; or it returns
  -- a store at epoch 0, after each entry below the path was given its permissions, 0700 for a directory
  -- and 0600 for a file.
  pub open_store_lem :
      (path : String) (f : F)
      → let r = open_store path (record { files = f; calls = [] }) in
        let es = L.walk path (L.open_file path f).1 in
        ((e : GoError) × (r.0 ≡ err e)
          × ((r.1.calls ≡ []) ⊎ ((cs : List Call) × (r.1.calls ≡ cs ++ closed ∷ []))))
        ⊎ ((db : D) × (r.0 ≡ ok (record { db = db; epoch = 0 })) × (r.1.calls ≡ opened ∷ modes es))
  unfolding open_store
  open_store_lem path f = elim (Result-cases (L.open_file path f).0) [
    | inr (e, h) ↦ inl (e, rw (open_store, h) refl, rw (open_store, h) (inl refl))
    | inl (db, h) ↦
        let d : Disk F = record { files = (L.open_file path f).1; calls = opened ∷ [] } in
        let q : open_store path (record { files = f; calls = [] }) ≡ open_restricted path db d =
          rw (open_store, h) refl in
        subst (Ends (L.walk path (L.open_file path f).1)) (sym q)
          (open_restricted-Ends path db d refl)
  ]
