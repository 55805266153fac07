-- ===== src/Login/Outcome.antt =====
-- What a login of pkg/apikit/apimtauth returns, and how often it asks.
use Prim.Native.String.{len}
use text.Mathlib.TextPositions.{len-append}
use mtlogin.Prelude.{
  ℕ, zero, suc, ◌+◌, ◌≤◌, ◌≡◌, inl, inr, refl, Bool, true, false, List, [], ◌∷◌, any, not, ◌++◌,
  sym, All, Option-cases, str_eq, none, some, is_some, if◌then◌else◌, ◌==◌, String, arith, ap, ◌∙◌,
  Bool-cases, is_empty, eq_iff, Exec,
}
use mathlib.Core.List.{append_assoc}
use mathlib.Core.Path.{subst}
use mtlogin.Http.{lookup}
use mtlogin.Errors.{ok, Result-cases}
use mtlogin.Domain.{AuthState, LoginRequest}
use mtlogin.Context.{Ctx}
use mtlogin.Protocol.{Library}
use mtlogin.Login.{
  Config, Encoding, Net, Wire, Posted, Sent, letter, digits_and_lowercase, random_chars, send,
  conclude, login, login_fuel, generate_at, build_request, totp_required, values,
  generate_visitor_id,
}
use mtlogin.Decimal.{is_empty-decimal}

len-nothing : len "" ≡ 0
len-nothing = refl

full_not_empty : (s : String) → len s ≡ 32 → is_empty s ≡ false
full_not_empty s h = elim (Bool-cases (is_empty s)) [
  | inr p ↦ p
  | inl p ↦ ground (arith, ap len ((eq_iff s "").0 p), len-nothing)
]

len-ok : (s t : String) → ok t ≡ ok s → len s ≡ len t
len-ok s t h = cc

len-letter :
    (cs : List String) (n : ℕ) → any (λ c. not (len c == 1)) cs ≡ false → len (letter cs n) ≡ 1
len-letter [] n h = refl
len-letter (c ∷ cs) zero h = ground arith
len-letter (c ∷ cs) (suc n) h = len-letter cs n (ground arith)

-- A form has a one-time code.
abbrev pub has_code : List (String × String) → Bool
has_code form = any (λ e. str_eq e.0 "otpCode") form

-- The requests whose form has a one-time code, and those whose form has none
abbrev pub coded : List Posted → ℕ
coded [] = 0
coded (r ∷ rs) = if has_code r.form then suc (coded rs) else coded rs

abbrev pub uncoded : List Posted → ℕ
uncoded [] = 0
uncoded (r ∷ rs) = if has_code r.form then uncoded rs else suc (uncoded rs)

coded-append : (rs qs : List Posted) → coded (rs ++ qs) ≡ coded rs + coded qs
coded-append [] qs = omega arith
coded-append (r ∷ rs) qs = ground (arith, coded-append rs qs)

uncoded-append : (rs qs : List Posted) → uncoded (rs ++ qs) ≡ uncoded rs + uncoded qs
uncoded-append [] qs = omega arith
uncoded-append (r ∷ rs) qs = ground (arith, uncoded-append rs qs)

All-append {ℓ} :
    (P : Posted → Type ℓ) (rs qs : List Posted) → All P rs → All P qs → All P (rs ++ qs)
All-append P [] qs h k = k
All-append P (r ∷ rs) qs h k = (h.0, All-append P rs qs h.1 k)

module _ (N : Encoding) {W : Type 0} (E : Net W) where
  random_chars-len : (k : ℕ) (y : Wire W) (s : String) → (random_chars N E k y).0 ≡ ok s → len s ≡ k
  unfolding random_chars
  random_chars-len zero y s h = len-ok s "" h ∙ len-nothing
  random_chars-len (suc k) y s h =
      let (n, w) = E.rand_int 36 y.world in
      elim (Result-cases n) [
        | inr (e, q) ↦ ground arith
        | inl (i, q) ↦
            let y1 : Wire W = record y { world = w } in
            elim (Result-cases (random_chars N E k y1).0) [
              | inr (e, q') ↦ ground arith
              | inl (t, q') ↦ ground (
                arith,
                random_chars-len k y1 t q',
                len-append (letter digits_and_lowercase i) t,
                len-letter digits_and_lowercase i refl,
              )
            ]
      ]

  random_chars-sent : (k : ℕ) (y : Wire W) → (random_chars N E k y).1.sent ≡ y.sent
  unfolding random_chars
  random_chars-sent zero y = refl
  random_chars-sent (suc k) y =
      let (n, w) = E.rand_int 36 y.world in
      ground (arith, random_chars-sent k (record y { world = w }))

  pub is_empty-generate_visitor_id :
      (unix_nano : Exec W ℕ) (w : W) → is_empty (generate_visitor_id N E unix_nano w).0 ≡ false
  unfolding generate_visitor_id
  is_empty-generate_visitor_id unix_nano w =
      let (r, y) = random_chars N E 32 (record { world = w; sent = [] }) in
      elim (Result-cases r) [
        | inl (s, q) ↦
            ground
              (arith, full_not_empty s (random_chars-len 32 (record { world = w; sent = [] }) s q))
        | inr (e, q) ↦ ground (arith, is_empty-decimal (unix_nano y.world).0)
      ]

  module _ (G : Library) (cfg : Config) (ctx : Ctx) (req : LoginRequest) where
    send-did :
        (otp : Bool) (y : Wire W) (x : Sent N E)
        → (send N E G cfg ctx req otp y).0 ≡ ok x
        → is_empty x.did ≡ false
    unfolding send
    send-did false y x h =
        let w1 = (E.ctx_err ctx y.world).1 in
        let drawn = random_chars N E 32 (record y { world = (E.unix_milli w1).1 }) in
        elim (Result-cases drawn.0) [
          | inr (e, q) ↦ ground arith
          | inl (d, q) ↦
              let filled = random_chars-len 32 (record y { world = (E.unix_milli w1).1 }) d q in
              ground (arith, full_not_empty d filled)
        ]
    send-did true y x h =
        let w1 = (E.ctx_err ctx y.world).1 in
        let w2 = (E.unix (E.unix_milli w1).1).1 in
        let drawn = random_chars N E 32 (record y { world = w2 }) in
        elim (Result-cases drawn.0) [
          | inr (e, q) ↦ ground arith
          | inl (d, q) ↦
              let filled = random_chars-len 32 (record y { world = w2 }) d q in
              ground (arith, full_not_empty d filled)
        ]

    conclude_complete :
        (x : Sent N E) (y : Wire W) (a : AuthState)
        → (conclude N E G cfg ctx req x y).0 ≡ ok a
        → is_empty x.did ≡ false
        → (a.visitor_id ≡ req.visitor_id)
          × (is_empty (N.trim_space a.token) ≡ false)
          × (is_empty a.did ≡ false)
    unfolding conclude
    conclude_complete x y a h d = ground arith

    -- The body is the encoding of the form, and a one-time code in it is that of the secret at some time.
    unfoldable pub Formed : Posted → Type 0
    Formed p =
        (p.request.body ≡ N.encode_values p.form)
        × (has_code p.form ≡ true
            → (now : ℕ) × (c : String) × (generate_at N req.totp_secret now ≡ ok c)
              × (lookup "otpCode" p.form ≡ c))

    -- The requests that were sent between two states: at most u without a code, and c with one.
    unfoldable pub Posts : ℕ → ℕ → Wire W → Wire W → Type 0
    Posts u c y z =
        (ps : List Posted) × (z.sent ≡ ps ++ y.sent)
        × All Formed ps
        × (uncoded ps ≤ u)
        × (coded ps ≤ c)

    Posts-none : (u c : ℕ) (y z : Wire W) → z.sent ≡ y.sent → Posts u c y z
    unfolding Posts
    Posts-none u c y z h = ([], h, tt, omega arith, omega arith)

    Posts-append : (y z t : Wire W) → Posts 1 0 y z → Posts 0 1 z t → Posts 1 1 y t
    unfolding Posts
    Posts-append y z t (ps, e, h, u, c) (qs, f, k, v, d) = (
      qs ++ ps,
      f ∙ ap (λ l. qs ++ l) e ∙ sym (append_assoc qs ps y.sent),
      All-append Formed qs ps k h,
      omega (arith, uncoded-append qs ps, u, v),
      omega (arith, coded-append qs ps, c, d),
    )

    Posts-more : (y z : Wire W) → Posts 1 0 y z → Posts 1 1 y z
    unfolding Posts
    Posts-more y z (ps, e, h, u, c) = (ps, e, h, u, omega (arith, c))

    send_plain : (y : Wire W) → Posts 1 0 y (send N E G cfg ctx req false y).1
    unfolding send Posts Formed
    send_plain y =
        let (e, w1) = E.ctx_err ctx y.world in
        let (t, w2) = E.unix_milli w1 in
        let before : Wire W = record y { world = w2 } in
        let kept = random_chars-sent 32 before in
        let z = (send N E G cfg ctx req false y).1 in
        elim (Option-cases e) [
          | inr (q, h) ↦ Posts-none 1 0 y z (ground (arith, h))
          | inl h ↦ elim (Result-cases (random_chars N E 32 before).0) [
            | inr (q, k) ↦ Posts-none 1 0 y z (ground (arith, h, k, kept))
            | inl (d, k) ↦
                let form = values N E req none t in
                let p : Posted = record {
                  request = build_request N E cfg req form d;
                  form = form;
                } in
                (
                  p ∷ [],
                  ground (arith, h, k, kept),
                  ((refl, λ c. cc), tt),
                  omega arith,
                  omega arith,
                )
          ]
        ]

    send_code : (y : Wire W) → Posts 0 1 y (send N E G cfg ctx req true y).1
    unfolding send Posts Formed
    send_code y =
        let (e, w1) = E.ctx_err ctx y.world in
        let (t, w2) = E.unix_milli w1 in
        let (now, w3) = E.unix w2 in
        let before : Wire W = record y { world = w3 } in
        let kept = random_chars-sent 32 before in
        let z = (send N E G cfg ctx req true y).1 in
        elim (Option-cases e) [
          | inr (q, h) ↦ Posts-none 0 1 y z (ground (arith, h))
          | inl h ↦ elim (Result-cases (generate_at N req.totp_secret now)) [
            | inr (q, g) ↦ Posts-none 0 1 y z (ground (arith, h, g))
            | inl (c, g) ↦ elim (Result-cases (random_chars N E 32 before).0) [
              | inr (q, k) ↦ Posts-none 0 1 y z (ground (arith, h, g, k, kept))
              | inl (d, k) ↦
                  let form = values N E req (some c) t in
                  let p : Posted = record {
                    request = build_request N E cfg req form d;
                    form = form;
                  } in
                  (
                    p ∷ [],
                    ground (arith, h, g, k, kept),
                    ((refl, λ _. (now, c, g, refl)), tt),
                    omega arith,
                    omega arith,
                  )
            ]
          ]
        ]

    conclude-sent : (x : Sent N E) (y : Wire W) → (conclude N E G cfg ctx req x y).1 ≡ y
    unfolding conclude
    conclude-sent x y = ground arith

    login_code : (f : ℕ) (y : Wire W) → Posts 0 1 y (login_fuel N E G cfg ctx req f true y).1
    unfolding login_fuel
    login_code zero y = Posts-none 0 1 y y refl
    login_code (suc f) y =
        let (r, z) = send N E G cfg ctx req true y in
        elim (Result-cases r) [
          | inr (e, q) ↦ subst (Posts 0 1 y) (ground (arith, q)) (send_code y)
          | inl (x, q) ↦ subst (Posts 0 1 y) (ground (arith, q, conclude-sent x z)) (send_code y)
        ]

    login_plain : (f : ℕ) (y : Wire W) → Posts 1 1 y (login_fuel N E G cfg ctx req f false y).1
    unfolding login_fuel
    login_plain zero y = Posts-none 1 1 y y refl
    login_plain (suc f) y =
        let (r, z) = send N E G cfg ctx req false y in
        elim (Result-cases r) [
          | inr (e, q) ↦ subst (Posts 1 1 y) (ground (arith, q)) (Posts-more y z (send_plain y))
          | inl (x, q) ↦ elim (Bool-cases (totp_required N E G cfg ctx req x.outcome)) [
            | inl t ↦
                let after = (login_fuel N E G cfg ctx req f true z).1 in
                subst (Posts 1 1 y) (ground (arith, q, t))
                  (Posts-append y z after (send_plain y) (login_code f z))
            | inr t ↦
                subst (Posts 1 1 y) (ground (arith, q, t, conclude-sent x z))
                  (Posts-more y z (send_plain y))
          ]
        ]

    login_enough :
        (n : ℕ) (y : Wire W)
        → let r = login_fuel N E G cfg ctx req (suc (suc n)) false y in
          (r ≡ login_fuel N E G cfg ctx req 2 false y) × (is_some r.0 ≡ true)
    unfolding login_fuel
    login_enough n y =
        let (r, z) = send N E G cfg ctx req false y in
        let (r', z') = send N E G cfg ctx req true z in
        elim (Result-cases r) [
          | inr (e, q) ↦ ground (arith, q)
          | inl (x, q) ↦ elim (Bool-cases (totp_required N E G cfg ctx req x.outcome)) [
            | inr t ↦ ground (arith, q, t)
            | inl t ↦ elim (Result-cases r') [
              | inr (e, q') ↦ ground (arith, q, t, q')
              | inl (x', q') ↦ ground (arith, q, t, q')
            ]
          ]
        ]

    -- However the server answers, a login adds at most one request whose form has no one-time code and at
    -- most one whose form has one, which is the code of the secret at some time; each body is the
    -- encoding of its form. That holds for any number of calls that login may make of itself, so that
    -- it makes one at most; with two it returns, and with more it does the same.
    pub login_requests :
        (y : Wire W)
        → Posts 1 1 y (login N E G cfg ctx req y).1
          × ((n : ℕ) → Posts 1 1 y (login_fuel N E G cfg ctx req n false y).1)
          × ((n : ℕ)
              → let r = login_fuel N E G cfg ctx req (suc (suc n)) false y in
                (r ≡ login_fuel N E G cfg ctx req 2 false y) × (is_some r.0 ≡ true))
    unfolding login
    login_requests y = (
      elim (Bool-cases (is_empty req.visitor_id)) [
        | inl e ↦ subst (Posts 1 1 y) (ground (arith, e)) (Posts-none 1 1 y y refl)
        | inr e ↦ subst (Posts 1 1 y) (ground (arith, e)) (login_plain 2 y)
      ],
      λ n. login_plain n y,
      λ n. login_enough n y,
    )

    -- A login that succeeds returns the visitor id that it was asked for, which is not empty, a token
    -- that is not blank, and a DID that is not empty.
    pub login_complete :
        (y : Wire W) (a : AuthState)
        → (login N E G cfg ctx req y).0 ≡ ok a
        → (a.visitor_id ≡ req.visitor_id)
          × (is_empty req.visitor_id ≡ false)
          × (is_empty (N.trim_space a.token) ≡ false)
          × (is_empty a.did ≡ false)
    unfolding login
    login_complete y a h =
        let (r, y1) = send N E G cfg ctx req false y in
        let (r', y2) = send N E G cfg ctx req true y1 in
        elim (Result-cases r) [
          | inr (e, q) ↦ ground arith
          | inl (x, q) ↦ elim (Result-cases r') [
            | inr (e, q') ↦ ground (arith, conclude_complete x y1 a, send-did false y x q)
            | inl (x', q') ↦ ground (
              arith,
              conclude_complete x y1 a,
              send-did false y x q,
              conclude_complete x' y2 a,
              send-did true y1 x' q',
            )
          ]
        ]
