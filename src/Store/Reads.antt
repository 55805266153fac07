-- ===== src/Store/Reads.antt =====
-- what the two reads of internal/store/leveldb.go return
use mtlogin.Prelude.{
  String, ◌≡◌, Bool, true, false, ◌||◌, Option, none, some, List, [], ◌∷◌, arith, ◌⊎◌, inl, inr,
  refl, ◌∙◌, is_some,
}
use mtlogin.Errors.{GoError, ok, Result-cases}
use mtlogin.Domain.{AuthState, no_auth}
use mtlogin.Store.Database.{LevelDb, Read, found, not_found, failed}
use mtlogin.Store.{
  LevelDbStore, Loaded, Field, key_of, assign, RangeOrder, fields, load_fields, load_auth_state,
  token_key, did_key, visitor_id_key, account_key, tdv,
}

-- An absent key reads as the empty text.
abbrev pub or_empty : Option String → String
or_empty none = ""
or_empty (some v) = v

-- The loop of `LoadAuthState` as a function of the contents.
abbrev read_field : (String → Option String) → Field → AuthState → AuthState
read_field c f s = elim (c (key_of f)) [ none ↦ s | some v ↦ assign f v s ]

abbrev read_all : (String → Option String) → List Field → AuthState → AuthState
read_all c [] s = s
read_all c (f ∷ fs) s = read_all c fs (read_field c f s)

abbrev any_present : (String → Option String) → List Field → Bool
any_present c [] = false
any_present c (f ∷ fs) = is_some (c (key_of f)) || any_present c fs

Read-cases :
    (r : Read) → ((v : String) × (r ≡ found v)) ⊎ (r ≡ not_found) ⊎ ((e : GoError) × (r ≡ failed e))
Read-cases (found v) = inl (v, refl)
Read-cases not_found = inr (inl refl)
Read-cases (failed e) = inr (inr (e, refl))

module _ {D : Type 0} (L : LevelDb D) where
  -- The identity that the database holds.
  abbrev pub stored : D → AuthState
  stored d = record {
    token = or_empty (L.contents d token_key);
    did = or_empty (L.contents d did_key);
    visitor_id = or_empty (L.contents d visitor_id_key);
  }

  abbrev pub stored_account : D → String
  stored_account d = or_empty (L.contents d account_key)

  -- Some key of the identity is there.
  abbrev pub holds_identity : D → Bool
  holds_identity d = any_present (L.contents d) (fields tdv)

  pub load_fields_keeps :
      (fs : List Field) (s : AuthState) (p : Bool) (d : D) (j : String)
      → L.contents (load_fields L fs s p d).1 j ≡ L.contents d j
  unfolding load_fields
  load_fields_keeps [] s p d j = ground arith
  load_fields_keeps (f ∷ fs) s p d j = grind (arith, L.get_keeps, load_fields_keeps fs)

  -- The loop, if no read fails, computes `read_all` of the contents.
  load_fields-eq :
      (c : String → Option String) (fs : List Field) (s : AuthState) (p : Bool) (d : D)
      (x : AuthState × Bool)
      → ((j : String) → L.contents d j ≡ c j)
      → (load_fields L fs s p d).0 ≡ ok x
      → x ≡ (read_all c fs s, p || any_present c fs)
  unfolding load_fields
  load_fields-eq c [] s p d x hc h = ground arith
  load_fields-eq c (f ∷ fs) s p d x hc h =
      let k = key_of f in
      let (r, d') = L.get k d in
      let same : ((j : String) → L.contents d' j ≡ c j) = λ j. L.get_keeps k j d ∙ hc j in
      elim (Read-cases r) [
        | inl (v, e) ↦
            ground
              (arith, L.get_found k d v, hc k, load_fields-eq c fs (assign f v s) true d' x same)
        | inr (inl e) ↦ ground (arith, L.get_not_found k d, hc k, load_fields-eq c fs s p d' x same)
        | inr (inr (e, q)) ↦ ground arith
      ]

  -- A load without a failed read returns what is stored, in whatever order the keys are read.
  pub load_auth_state-eq :
      (o : RangeOrder) (s : LevelDbStore D) {x : Loaded}
      → (load_auth_state L o s).0 ≡ ok x
      → (x.state ≡ stored s.db) × (x.epoch ≡ s.epoch) × (x.present ≡ holds_identity s.db)
  unfolding load_auth_state
  load_auth_state-eq o s h =
      let l = load_fields L (fields o) no_auth false s.db in
      elim (Result-cases l.0) [
        | inl (x, e) ↦
            ground
              (arith, load_fields-eq (L.contents s.db) (fields o) no_auth false s.db x (λ j. refl))
        | inr (q, e) ↦ ground arith
      ]
