-- ===== src/Logging/Secrecy.antt =====
-- What the lines of the HTTP log tell of the headers.
use mtlogin.Prelude.{
  ℕ, ◌-◌, String, Bool, true, false, ◌||◌, ◌≡◌, refl, any, arith, Option, none, some, List, [], ◌∷◌,
  Exec, is_empty, str_eq, eq_iff, Bool-cases, inl, inr,
}
use mtlogin.Errors.{GoError}
use mtlogin.Context.{Ctx}
use mtlogin.Http.{
  Headers, Request, Response, Reply, RoundTripper, request_body, header_value, first_header_value,
}
use mtlogin.Log.{Values, sensitive_keys, is_sensitive_key, redact, sanitize_headers, mask_secret}
use mtlogin.Logging.{
  Library, Logged, set_values, set_headers, below, log_event, http_entry, logging,
}

-- What the strings of the standard library do to the names of headers.
pub record Spelling (L : Library) : Type 0 where
  -- http.CanonicalHeaderKey changes the case of letters only.
  pub canonical_lower : (k : String) → L.texts.to_lower (L.canonical k) ≡ L.texts.to_lower k
  pub content_type :
      (k : String) → L.equal_fold k "Content-Type" ≡ true → L.texts.to_lower k ≡ "content-type"
  pub dashes : L.texts.dashes_and_dots "content-type" ≡ "content_type"
  pub no_password : L.texts.contains "content_type" "password" ≡ false
  pub no_secret : L.texts.contains "content_type" "secret" ≡ false
  pub no_token : L.texts.contains "content_type" "token" ≡ false
  pub no_auth : L.texts.contains "content_type" "auth" ≡ false
  pub authorization : L.texts.dashes_and_dots "authorization" ≡ "authorization"
  pub did : L.texts.dashes_and_dots "did" ≡ "did"
  pub visitorid : L.texts.dashes_and_dots "visitorid" ≡ "visitorid"
  pub visitor_id : L.texts.dashes_and_dots "visitor-id" ≡ "visitor_id"

module _ (L : Library) where
  -- The headers that carry the token, the DID and the visitor id, in any case: no part of sanitize.go.
  abbrev pub is_secret : String → Bool
  is_secret k =
      let name = L.texts.to_lower k in
      str_eq name "authorization"
      || (str_eq name "did" || (str_eq name "visitorid" || str_eq name "visitor-id"))

  -- The values of a header in two exchanges: they may differ if the header carries a secret, and if
  -- sanitize.go takes its name for a sensitive one.
  abbrev pub AlikeValues : String → String → String → Type 0
  AlikeValues k v u =
      (is_secret k ≡ false → is_sensitive_key L.texts k ≡ false → v ≡ u) × (is_empty v ≡ is_empty u)

  -- The same headers in the same order, but for such values.
  pub data Alike : Headers → Headers → Type 0 where
    alike_end : Alike [] []
    alike_header :
        (k v u : String) (hs js : Headers)
        → AlikeValues k v u
        → Alike hs js
        → Alike ((k, v) ∷ hs) ((k, u) ∷ js)

  header_value-Alike :
      (key : String) (hs js : Headers)
      → Alike hs js
      → is_empty (header_value L.equal_fold hs key) ≡ is_empty (header_value L.equal_fold js key)
  header_value-Alike key _ _ alike_end = refl
  header_value-Alike key _ _ (alike_header k v u hs js a h) =
      let rest = header_value-Alike key hs js h in ground (arith, a.1, rest)

  mask-Alike :
      (key : String) (hs js : Headers)
      → Alike hs js
      → mask_secret (header_value L.equal_fold hs key)
        ≡ mask_secret (header_value L.equal_fold js key)
  mask-Alike key hs js h = ground (arith, header_value-Alike key hs js h)

  first_mask-Alike :
      (keys : List String) (hs js : Headers)
      → Alike hs js
      → mask_secret (first_header_value L.equal_fold hs keys)
        ≡ mask_secret (first_header_value L.equal_fold js keys)
  first_mask-Alike [] hs js h = refl
  first_mask-Alike (key ∷ keys) hs js h =
      ground (arith, header_value-Alike key hs js h, first_mask-Alike keys hs js h)

  module _ (C : Spelling L) where
    content_type_plain :
        (k : String) → L.equal_fold k "Content-Type" ≡ true → is_sensitive_key L.texts k ≡ false
    unfolding is_sensitive_key
    content_type_plain k h =
        rw (C.content_type k h, C.dashes, C.no_password, C.no_secret, C.no_token, C.no_auth) refl

    canonical_sensitive :
        (k : String) → is_sensitive_key L.texts (L.canonical k) ≡ is_sensitive_key L.texts k
    unfolding is_sensitive_key
    canonical_sensitive k = rw (C.canonical_lower k) refl

    sensitive_name :
        (k name key : String)
        → L.texts.dashes_and_dots name ≡ key
        → any (λ s. str_eq s key) sensitive_keys ≡ true
        → str_eq (L.texts.to_lower k) name ≡ true
        → is_sensitive_key L.texts k ≡ true
    unfolding is_sensitive_key
    sensitive_name k name key d h e =
        rw (is_sensitive_key, (eq_iff (L.texts.to_lower k) name).0 e, d, h) refl

    -- sanitize.go takes the name of every secret for a sensitive one.
    secret_sensitive : (k : String) → is_sensitive_key L.texts k ≡ false → is_secret k ≡ false
    secret_sensitive k h =
        let a = sensitive_name k "authorization" "authorization" C.authorization refl in
        let d = sensitive_name k "did" "did" C.did refl in
        let v = sensitive_name k "visitorid" "visitorid" C.visitorid refl in
        let w = sensitive_name k "visitor-id" "visitor_id" C.visitor_id refl in
        ground (arith, h, a, d, v, w)

    plain_same : (k v u : String) → AlikeValues k v u → is_sensitive_key L.texts k ≡ false → v ≡ u
    plain_same k v u a h = a.0 (secret_sensitive k h) h

    content_type-Alike :
        (hs js : Headers)
        → Alike hs js
        → header_value L.equal_fold hs "Content-Type" ≡ header_value L.equal_fold js "Content-Type"
    content_type-Alike _ _ alike_end = refl
    content_type-Alike _ _ (alike_header k v u hs js a h) =
        ground (arith, plain_same k v u a, content_type_plain k, content_type-Alike hs js h)

    -- Redaction by the set of one header.
    set_values-redacted :
        (k : String) (vs : List String) (out : Values)
        → sanitize_headers L.texts (set_values k vs out)
          ≡ set_values k (redact L.texts (k, vs)).1 (sanitize_headers L.texts out)
    set_values-redacted k vs [] = refl
    set_values-redacted k vs ((j, us) ∷ out) = elim (Bool-cases (str_eq j k)) [
      | inl e ↦ rw (e, (eq_iff j k).0 e) refl
      | inr e ↦ rw (e, set_values-redacted k vs out) refl
    ]

    redact-Alike :
        (k v u : String)
        → AlikeValues k v u
        → (redact L.texts (L.canonical k, v ∷ [])).1 ≡ (redact L.texts (L.canonical k, u ∷ [])).1
    redact-Alike k v u a = ground (arith, plain_same k v u a, canonical_sensitive k)

    set_headers-Alike :
        (hs js : Headers) (out other : Values)
        → Alike hs js
        → sanitize_headers L.texts out ≡ sanitize_headers L.texts other
        → sanitize_headers L.texts (set_headers L hs out)
          ≡ sanitize_headers L.texts (set_headers L js other)
    set_headers-Alike _ _ out other alike_end e = e
    set_headers-Alike _ _ out other (alike_header k v u hs js a h) e =
        set_headers-Alike hs js (set_values (L.canonical k) (v ∷ []) out)
          (set_values (L.canonical k) (u ∷ []) other) h
          (rw
            (
              set_values-redacted (L.canonical k) (v ∷ []) out,
              set_values-redacted (L.canonical k) (u ∷ []) other,
              redact-Alike k v u a,
              e,
            )
            refl)

    -- Two requests, and two replies, that tell the log the same but for the sensitive headers.
    abbrev pub AlikeRequests : Request → Request → Type 0
    AlikeRequests r q =
        (r.server ≡ q.server)
        × (r.method ≡ q.method)
        × (r.url ≡ q.url)
        × (request_body r ≡ request_body q)
        × Alike r.headers q.headers

    pub data AlikeReplies : Reply → Reply → Type 0 where
      alike_failure : (e : Option GoError) → AlikeReplies (none, e) (none, e)
      alike_response :
          (r q : Response) (e : Option GoError)
          → r.status ≡ q.status
          → r.body ≡ q.body
          → Alike r.headers q.headers
          → AlikeReplies (some r, e) (some q, e)

    entry-Alike :
        (ctx : Ctx) (r q : Request) (x y : Reply) (cost : ℕ)
        → AlikeRequests r q
        → AlikeReplies x y
        → http_entry L ctx (log_event L ctx r x cost) ≡ http_entry L ctx (log_event L ctx q y cost)
    unfolding http_entry
    entry-Alike ctx r q _ _ cost h (alike_failure e) =
        rw
          (
            h.0,
            h.1,
            h.2,
            h.3,
            mask-Alike "Did" r.headers q.headers h.4,
            first_mask-Alike ("Visitor-ID" ∷ "visitorid" ∷ []) r.headers q.headers h.4,
            content_type-Alike r.headers q.headers h.4,
            set_headers-Alike r.headers q.headers [] [] h.4 refl,
          )
          refl
    entry-Alike ctx r q _ _ cost h (alike_response a b e s t k) =
        rw
          (
            h.0,
            h.1,
            h.2,
            h.3,
            s,
            t,
            mask-Alike "Did" r.headers q.headers h.4,
            first_mask-Alike ("Visitor-ID" ∷ "visitorid" ∷ []) r.headers q.headers h.4,
            content_type-Alike r.headers q.headers h.4,
            content_type-Alike a.headers b.headers k,
            set_headers-Alike r.headers q.headers [] [] h.4 refl,
            set_headers-Alike a.headers b.headers [] [] k refl,
          )
          refl

    module _ {W : Type 0} (now : Exec W ℕ) (ctx : Ctx) where
      -- what the trippers inside return for a request, and the state that they leave
      abbrev pub inside : RoundTripper (Logged W) → Request → Logged W → Reply × Logged W
      inside next req s = next ctx req (record (below now s).1 { request = req })

      -- Two exchanges that take the same time, and tell the log the same but for the values of secret
      -- headers, add the same line to the HTTP log. Secret are Authorization, Did, visitorid and
      -- Visitor-ID, in any case, and what sanitize.go takes for sensitive; a value is empty in both
      -- exchanges or in neither. So no token, DID or visitor id in a header can be read from the line,
      -- where strings.ToLower and the replacing of dashes do to the names of the headers what they do in
      -- ASCII, and the canonical spelling of a header changes the case of letters only.
      pub logging-Alike :
          (next other : RoundTripper (Logged W)) (req out : Request) (s z : Logged W)
          → let a = inside next req s in
            let b = inside other out z in
            (below now s).0 ≡ (below now z).0
            → (below now a.1).0 ≡ (below now b.1).0
            → AlikeRequests a.1.request b.1.request
            → AlikeReplies a.0 b.0
            → a.1.lines ≡ b.1.lines
            → (logging L now next ctx req s).1.lines ≡ (logging L now other ctx out z).1.lines
      unfolding logging
      logging-Alike next other req out s z start stop h k lines =
          let a = inside next req s in
          let b = inside other out z in
          let cost = (below now a.1).0 - (below now s).0 in
          rw
            (
              start,
              stop,
              lines,
              entry-Alike ctx a.1.request b.1.request a.0 b.0 ((below now b.1).0 - (below now z).0)
                  h k,
            )
            refl
