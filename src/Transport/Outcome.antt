-- ===== src/Transport/Outcome.antt =====
-- Which headers leave pkg/apikit/internal/mttransport, and what the responses change.
use mtlogin.Prelude.{
  ℕ, zero, suc, ◌<◌, String, Bool, false, ◌≡◌, ◌≢◌, ◌||◌, List, [], ◌∷◌, ◌++◌, arith, str_eq,
  is_empty, refl, length, ap,
}
use mtlogin.Domain.{AuthState}
use mtlogin.Http.{Headers, lookup}
use mtlogin.Http.Laws.{lookup-set, lookup-set_ne}
use mtlogin.Transport.{
  Strings, nth_state, set_state, default_header, set_unless_empty, identify, delete_header,
  HeadersConfig, before_ts, after_ts,
}

pub lookup-default_header :
    (j k v : String) (hs : Headers)
    → str_eq k j ≡ false
    → lookup j (default_header k v hs) ≡ lookup j hs
lookup-default_header j k v hs h = ground (arith, lookup-set_ne j k v hs h)

lookup-set_unless :
    (j k v : String) (hs : Headers)
    → str_eq k j ≡ false
    → lookup j (set_unless_empty k v hs) ≡ lookup j hs
lookup-set_unless j k v hs h = ground (arith, lookup-set_ne j k v hs h)

-- What is read of the three headers of an identity, whatever `Headers` adds.
module _ (cfg : HeadersConfig) (j : String) where
  -- The key is none of those that `Headers` sets.
  abbrev pub Own : Type 0
  Own =
      (str_eq "referer" j ≡ false)
      × (str_eq "Accept" j ≡ false)
      × (str_eq "Ts" j ≡ false)
      × (str_eq "version" j ≡ false)
      × (str_eq "webversion" j ≡ false)

  pub lookup-before_ts : (hs : Headers) → Own → lookup j (before_ts cfg hs) ≡ lookup j hs
  lookup-before_ts hs h = ground (
    arith,
    lookup-default_header j "Accept" "application/json;charset=UTF-8"
        (default_header "referer" cfg.referer hs) h.1,
    lookup-default_header j "referer" cfg.referer hs h.0,
  )

  pub lookup-after_ts : (hs : Headers) → Own → lookup j (after_ts cfg hs) ≡ lookup j hs
  lookup-after_ts hs h = ground (
    arith,
    lookup-default_header j "webversion" cfg.web_version (default_header "version" cfg.version hs)
        h.4,
    lookup-default_header j "version" cfg.version hs h.3,
  )

-- Where a part of the identity is not empty, its header has it.
pub lookup-identify :
    (T : Strings) (a : AuthState) (hs : Headers)
    → (is_empty a.token ≡ false → lookup "Authorization" (identify T a hs) ≡ a.token)
      × (is_empty a.did ≡ false → lookup "Did" (identify T a hs) ≡ a.did)
      × (is_empty a.visitor_id ≡ false → lookup "visitorid" (identify T a hs) ≡ a.visitor_id)
lookup-identify T a hs =
    let h1 = set_unless_empty "Authorization" a.token hs in
    let h2 = set_unless_empty "Did" a.did h1 in
    (
      λ e. ground (
        arith,
        lookup-set_unless "Authorization" "visitorid" a.visitor_id h2 refl,
        lookup-set_unless "Authorization" "Did" a.did h1 refl,
        lookup-set "Authorization" a.token hs,
      ),
      λ e. ground (
        arith,
        lookup-set_unless "Did" "visitorid" a.visitor_id h2 refl,
        lookup-set "Did" a.did h1,
      ),
      λ e. ground (arith, lookup-set "visitorid" a.visitor_id h2),
    )

module _ (T : Strings) where
  -- The headers have the key in some spelling.
  abbrev pub spelled : String → Headers → Bool
  spelled key [] = false
  spelled key ((k, v) ∷ hs) = T.equal_fold k key || spelled key hs

  pub spelled-delete : (key : String) (hs : Headers) → spelled key (delete_header T key hs) ≡ false
  spelled-delete key [] = refl
  spelled-delete key ((k, v) ∷ hs) = ground (arith, spelled-delete key hs)

  pub spelled-delete_other :
      (key other : String) (hs : Headers)
      → spelled key hs ≡ false
      → spelled key (delete_header T other hs) ≡ false
  spelled-delete_other key other [] h = refl
  spelled-delete_other key other ((k, v) ∷ hs) h = ground (arith, spelled-delete_other key other hs)

pub nth_state-set_self :
    (i : ℕ) (a : AuthState) (l : List AuthState) → i < length l → nth_state i (set_state i a l) ≡ a
nth_state-set_self i a [] h = absurd (omega arith)
nth_state-set_self zero a (b ∷ l) h = refl
nth_state-set_self (suc i) a (b ∷ l) h = nth_state-set_self i a l (omega arith)

pub nth_state-set_ne :
    (i j : ℕ) (a : AuthState) (l : List AuthState)
    → i ≢ j
    → nth_state j (set_state i a l) ≡ nth_state j l
nth_state-set_ne i j a [] h = refl
nth_state-set_ne zero zero a (b ∷ l) h = absurd (h refl)
nth_state-set_ne zero (suc j) a (b ∷ l) h = refl
nth_state-set_ne (suc i) zero a (b ∷ l) h = refl
nth_state-set_ne (suc i) (suc j) a (b ∷ l) h = nth_state-set_ne i j a l (λ e. h (ap suc e))

pub nth_state-append :
    (i : ℕ) (l m : List AuthState) → i < length l → nth_state i (l ++ m) ≡ nth_state i l
nth_state-append i [] m h = absurd (omega arith)
nth_state-append zero (b ∷ l) m h = refl
nth_state-append (suc i) (b ∷ l) m h = nth_state-append i l m (omega arith)

pub nth_state-last : (a : AuthState) (l : List AuthState) → nth_state (length l) (l ++ (a ∷ [])) ≡ a
nth_state-last a [] = refl
nth_state-last a (b ∷ l) = nth_state-last a l

pub length-set : (i : ℕ) (a : AuthState) (l : List AuthState) → length (set_state i a l) ≡ length l
length-set i a [] = refl
length-set zero a (b ∷ l) = refl
length-set (suc i) a (b ∷ l) = omega (arith, length-set i a l)
