-- ===== src/TlsClient/Fits.antt =====
-- The HTTP clients that the client keeps are made as their keys say, with the jars of their scopes.
use mtlogin.Prelude.{
  not, String, ◌≡◌, refl, sym, ap, ◌∙◌, Bool, true, false, Option, none, some, List, [], ◌∷◌, ◌⊎◌,
  inl, inr, All, arith, if◌then◌else◌, is_empty, str_eq, eq_iff, Bool-cases, Option-cases,
}
use mathlib.Core.Path.{subst}
use mtlogin.Errors.{ok, Result-cases}
use mtlogin.Http.{Request}
use mtlogin.TlsClient.{
  ClientKey, key_eq, Library, Pool, client_of, jar_of, key_of, jar_for, config_for, new_client,
  acquire, client_options, ClientOption,
}
use mtlogin.TlsClient.Options.{Settings, settings, settings-client_options}

same_bool : (a b : Bool) → (if a then b else not b) ≡ true → a ≡ b
same_bool true b h = sym h
same_bool false true h = h
same_bool false false h = refl

-- Keys that compare equal are equal.
key-eq_lem : (a b : ClientKey) → key_eq a b ≡ true → a ≡ b
key-eq_lem a b h =
    let p = (eq_iff a.profile b.profile).0 (ground arith) in
    let q = (eq_iff a.proxy b.proxy).0 (ground arith) in
    let s = (eq_iff a.cookie_scope b.cookie_scope).0 (ground arith) in
    let t : a.timeout_millis ≡ b.timeout_millis = ground (arith, h) in
    let d : a.disable_redirect ≡ b.disable_redirect =
      same_bool a.disable_redirect b.disable_redirect (ground (arith, h)) in
    λ i. record {
      profile = p i;
      proxy = q i;
      timeout_millis = t i;
      disable_redirect = d i;
      cookie_scope = s i;
    }

module _ {W H J F B : Type 0} (L : Library W H J F B) (options_of : H → List (ClientOption J)) where
  -- The jar of a client is the one that is kept for its scope; without a scope it has none.
  abbrev pub JarFits : String → Option J → List (String × J) → Type 0
  JarFits scope jar jars =
      ((is_empty scope ≡ true) × (jar ≡ none))
      ⊎ ((is_empty scope ≡ false) × ((j : J) × (jar ≡ some j) × (jar_of scope jars ≡ some j)))

  -- A client is configured as its key says.
  abbrev pub Fits : List (String × J) → ClientKey × H → Type 0
  Fits jars (k, h) =
      ((settings (options_of h)).profile_name ≡ k.profile)
      × ((settings (options_of h)).proxy ≡ k.proxy)
      × ((settings (options_of h)).timeout_millis ≡ k.timeout_millis)
      × ((settings (options_of h)).disable_redirect ≡ k.disable_redirect)
      × JarFits k.cookie_scope (settings (options_of h)).jar jars

  abbrev pub Grows : List (String × J) → List (String × J) → Type 0
  Grows js ks = (s : String) (j : J) → jar_of s js ≡ some j → jar_of s ks ≡ some j

  JarFits-Grows :
      (scope : String) (jar : Option J) (js ks : List (String × J))
      → Grows js ks
      → JarFits scope jar js
      → JarFits scope jar ks
  JarFits-Grows scope jar js ks g (inl h) = inl h
  JarFits-Grows scope jar js ks g (inr (h, (j, e, q))) = inr (h, (j, e, g scope j q))

  Fits-Grows :
      (js ks : List (String × J)) (cs : List (ClientKey × H))
      → Grows js ks
      → All (Fits js) cs
      → All (Fits ks) cs
  Fits-Grows js ks [] g h = _
  Fits-Grows js ks ((k, c) ∷ cs) g ((p, q, t, d, f), hs) = (
    (p, q, t, d, JarFits-Grows k.cookie_scope (settings (options_of c)).jar js ks g f),
    Fits-Grows js ks cs g hs,
  )

  found-Fits :
      (key : ClientKey) (js : List (String × J)) (cs : List (ClientKey × H)) (h : H)
      → All (Fits js) cs
      → client_of key cs ≡ some h
      → Fits js (key, h)
  found-Fits key js [] h f e = cc
  found-Fits key js ((k, c) ∷ cs) h (f, fs) e = elim (Bool-cases (key_eq k key)) [
    | inl q ↦
        let same : c ≡ h = ground (arith, q, e) in
        subst (λ x. Fits js (x, h)) (key-eq_lem k key q) (subst (λ x. Fits js (k, x)) same f)
    | inr q ↦ found-Fits key js cs h fs (ground (arith, q, e))
  ]

  added :
      (scope : String) (j : J) (js : List (String × J))
      → jar_of scope js ≡ none
      → Grows js ((scope, j) ∷ js)
  added scope j js q s k h = elim (Bool-cases (str_eq scope s)) [
    | inl e ↦ ground (arith, q, h, (eq_iff scope s).0 e)
    | inr e ↦ ground (arith, h, e)
  ]

  jar_for_lem :
      (scope : String) (js : List (String × J)) (w : W)
      → let (jar, ks) = (jar_for L scope js w).0 in Grows js ks × JarFits scope jar ks
  jar_for_lem scope js w = elim (Bool-cases (is_empty scope)) [
    | inl e ↦ rw (e) (λ s j h. h, inl (refl, refl))
    | inr e ↦ elim (Option-cases (jar_of scope js)) [
      | inr (j, q) ↦ rw (e, q) (λ s j h. h, inr (refl, (j, refl, q)))
      | inl q ↦
          let j = (L.new_cookie_jar w).0 in
          rw (e, q)
            (added scope j js q, inr (refl, (j, refl, ground (arith, (eq_iff scope scope).1 refl))))
    ]
  ]

  abbrev pub Kept : Pool H J → Type 0
  Kept p = All (Fits p.jars) p.clients

  config-Fits :
      (req : Request) (h : H) (jar : Option J) (js : List (String × J))
      → options_of h ≡ client_options L (config_for L req jar)
      → JarFits req.cookie_scope jar js
      → Fits js (key_of L req, h)
  config-Fits req h jar js q f =
      let e = ap settings q ∙ settings-client_options L (config_for L req jar) in
      (
        ap (λ (c : Settings J). c.profile_name) e,
        ap (λ (c : Settings J). c.proxy) e,
        ap (λ (c : Settings J). c.timeout_millis) e,
        ap (λ (c : Settings J). c.disable_redirect) e,
        subst (λ (c : Settings J). JarFits req.cookie_scope c.jar js) (sym e) f,
      )

  module _
      (built : (os : List (ClientOption J)) (w : W) (h : H)
        → (L.new_http_client os w).0 ≡ ok h
        → options_of h ≡ os) where
    pub acquire_kept :
        (req : Request) (p : Pool H J) (w : W)
        → Kept p
        → let (r, q) = (acquire L req p w).0 in
          Kept q × Grows p.jars q.jars × ((h : H) → r ≡ ok h → Fits q.jars (key_of L req, h))
    unfolding acquire
    acquire_kept req p w k = elim (Bool-cases p.closed) [
      | inl c ↦ rw (c) (k, λ s j h. h, λ h e. cc)
      | inr c ↦ elim (Option-cases (client_of (key_of L req) p.clients)) [
        | inr (h, f) ↦
            rw (c, f)
              (
                k,
                λ s j x. x,
                λ h' e. found-Fits (key_of L req) p.jars p.clients h' k (ground (arith, f, e)),
              )
        | inl f ↦
            let made = jar_for L req.cookie_scope p.jars w in
            let fit = jar_for_lem req.cookie_scope p.jars w in
            let kept = Fits-Grows p.jars made.0.1 p.clients fit.0 k in
            elim (Result-cases (new_client L (config_for L req made.0.0) made.1).0) [
              | inr (q, e) ↦ rw (c, f, e) (kept, fit.0, λ h' x. cc)
              | inl (h, e) ↦
                  let fits = config-Fits req h made.0.0 made.0.1 (built _ _ h e) fit.1 in
                  rw (c, f, e)
                    (
                      (fits, kept),
                      fit.0,
                      λ h' x. subst (λ g. Fits made.0.1 (key_of L req, g)) (ground (arith, x)) fits,
                    )
            ]
      ]
    ]
