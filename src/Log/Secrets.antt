-- ===== src/Log/Secrets.antt =====
-- What pkg/log/sanitize.go leaves of headers and of JSON.
use mtlogin.Prelude.{
  Bool, true, false, ◌≡◌, ◌&&◌, arith, str_eq, refl, sym, eq_iff, if◌then◌else◌, ap,
}
use mtlogin.Json.{
  Json, null, boolean, integer, string, array, object, Items, nil, cons, Fields, end, field,
}
use mtlogin.Log.{Texts, redacted, is_sensitive_key, sanitize_json, sanitize_items, sanitize_fields}

abbrev is_redacted : Json → Bool
is_redacted (string s) = str_eq s redacted
is_redacted _ = false

module _ (T : Texts) where
  -- At any depth, the value of a sensitive key is the mark of what was taken out.
  unfoldable mutual
    pub clean : Json → Bool
    clean null = true
    clean (boolean b) = true
    clean (integer n) = true
    clean (string s) = true
    clean (array xs) = clean_items xs
    clean (object fs) = clean_fields fs

    pub clean_items : Items → Bool
    clean_items nil = true
    clean_items (cons x xs) = clean x && clean_items xs

    pub clean_fields : Fields → Bool
    clean_fields end = true
    clean_fields (field k x fs) =
        (if is_sensitive_key T k then is_redacted x else clean x) && clean_fields fs

  abbrev kept : Bool → Json → Json
  kept b x = if b then string redacted else x

  kept-clean :
      (b c : Bool) (x : Json)
      → clean x ≡ true
      → c ≡ true
      → ((if b then is_redacted (kept b x) else clean (kept b x)) && c) ≡ true
  kept-clean true c x h k = k
  kept-clean false c x h k = ground (arith, h, k)

  mutual
    unfolding sanitize_json clean

    clean-sanitize_json : (j : Json) → clean (sanitize_json T j) ≡ true
    clean-sanitize_json null = refl
    clean-sanitize_json (boolean b) = refl
    clean-sanitize_json (integer n) = refl
    clean-sanitize_json (string s) = refl
    clean-sanitize_json (array xs) = clean_items-sanitize xs
    clean-sanitize_json (object fs) = clean_fields-sanitize fs

    clean_items-sanitize : (xs : Items) → clean_items (sanitize_items T xs) ≡ true
    clean_items-sanitize nil = refl
    clean_items-sanitize (cons x xs) =
        ground (arith, clean-sanitize_json x, clean_items-sanitize xs)

    clean_fields-sanitize : (fs : Fields) → clean_fields (sanitize_fields T fs) ≡ true
    clean_fields-sanitize end = refl
    clean_fields-sanitize (field k x fs) =
        kept-clean (is_sensitive_key T k) (clean_fields (sanitize_fields T fs)) (sanitize_json T x)
          (clean-sanitize_json x) (clean_fields-sanitize fs)

  -- A clean value is left as it is.
  redacted_only : (x : Json) → is_redacted x ≡ true → string redacted ≡ x
  redacted_only (string s) h = ap string (sym ((eq_iff s redacted).0 h))
  redacted_only null h = cc
  redacted_only (boolean b) h = cc
  redacted_only (integer n) h = cc
  redacted_only (array xs) h = cc
  redacted_only (object fs) h = cc

  kept_same :
      (b c : Bool) (x y : Json)
      → ((if b then is_redacted x else clean x) && c) ≡ true
      → (clean x ≡ true → y ≡ x)
      → (kept b y ≡ x) × (c ≡ true)
  kept_same true c x y h k = (redacted_only x (ground arith), ground arith)
  kept_same false c x y h k = (k (ground arith), ground arith)

  mutual
    unfolding sanitize_json clean

    sanitize_json-clean : (j : Json) → clean j ≡ true → sanitize_json T j ≡ j
    sanitize_json-clean null h = refl
    sanitize_json-clean (boolean b) h = refl
    sanitize_json-clean (integer n) h = refl
    sanitize_json-clean (string s) h = refl
    sanitize_json-clean (array xs) h = ap array (sanitize_items-clean xs h)
    sanitize_json-clean (object fs) h = ap object (sanitize_fields-clean fs h)

    sanitize_items-clean : (xs : Items) → clean_items xs ≡ true → sanitize_items T xs ≡ xs
    sanitize_items-clean nil h = refl
    sanitize_items-clean (cons x xs) h =
        ground (arith, sanitize_json-clean x, sanitize_items-clean xs)

    sanitize_fields-clean : (fs : Fields) → clean_fields fs ≡ true → sanitize_fields T fs ≡ fs
    sanitize_fields-clean end h = refl
    sanitize_fields-clean (field k x fs) h =
        let p =
          kept_same (is_sensitive_key T k) (clean_fields fs) x (sanitize_json T x) h
            (sanitize_json-clean x) in
        ground (arith, p, sanitize_fields-clean fs p.1)

  -- In what `sanitizeJSONValue` leaves, the value of every sensitive key is the mark of what was taken
  -- out, at any depth; and a value of which that holds already is left as it is.
  pub sanitize_json_lem :
      (j : Json) → (clean (sanitize_json T j) ≡ true) × (clean j ≡ true → sanitize_json T j ≡ j)
  sanitize_json_lem j = (clean-sanitize_json j, sanitize_json-clean j)
