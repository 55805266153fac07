-- ===== src/Notify/Once.antt =====
-- Notify among other calls: it tells each channel once.
use mtlogin.Prelude.{
  ℕ, zero, suc, ◌≡◌, refl, sym, ap, ◌∙◌, true, some, List, [], ◌∷◌, ◌++◌, map, All, arith, inl, inr,
  Bool-cases, Option-cases,
}
use mathlib.Core.Path.{subst}
use mathlib.Core.List.{Permᴰ, append-nil, append_assoc, map-append}
use mathlib.Core.List.Permᴰ as Permᴰ
use mtlogin.Notify.Manager.{Sent, Managed, join_errors, send_context}
use mtlogin.Notify.Delivery.{All-perm}
use mtlogin.Notify.Desk.{
  Sending, Answer, refused, notified, closed, Desk, Action, notify_call, send_end, notify_return,
  close_call, close_return, take_out, errors_of, is_done, close_done, advance, steps, fresh,
}

-- Taking a member out of a list leaves the others.
take_out-Perm :
    {A : Type 0} (n : ℕ) (xs : List A) (y : A) (ys : List A)
    → take_out n xs ≡ some (y, ys)
    → Permᴰ (y ∷ ys) xs
take_out-Perm n [] y ys h = cc
take_out-Perm zero (x ∷ xs) y ys h =
    let e : x ∷ xs ≡ y ∷ ys = ground (arith, h) in
    subst (λ l. Permᴰ l (x ∷ xs)) e (Permᴰ.refl (x ∷ xs))
take_out-Perm (suc n) (x ∷ xs) y ys h = elim (Option-cases (take_out n xs)) [
  | inl e ↦ ground (arith, h, e)
  | inr ((z, zs), e) ↦
      let q : z ∷ x ∷ zs ≡ y ∷ ys = ground (arith, h, e) in
      subst (λ l. Permᴰ l (x ∷ xs)) q
        (Permᴰ.trans (Permᴰ.swap refl refl) (Permᴰ.cons refl (take_out-Perm n xs z zs e)))
]

module _ {W : Type 0} (notifiers : List (Managed W)) where
  abbrev pub told : List (Managed W × Sent) → List (Managed W)
  told made = map (λ p. p.0) made

  -- The goroutines of a call are those of all channels.
  abbrev Fanned : Sending W → Type 0
  Fanned c = Permᴰ (told c.made ++ c.rest) notifiers

  -- A call of Notify that has returned, and was not refused, has told each channel once, and its errors
  -- are theirs.
  unfoldable pub Delivered : Answer W → Type 0
  Delivered (refused e) = Unit
  Delivered (notified made e) = Permᴰ (told made) notifiers × (e ≡ join_errors (errors_of made))
  Delivered (closed e) = Unit

  abbrev Sound : Desk W → Type 0
  Sound d = All Fanned d.calls × All Delivered d.answers

  -- One more goroutine has ended.
  send-Fanned :
      (k : ℕ) (item : Managed W) (rest : List (Managed W)) (s : Sent) (c : Sending W)
      → take_out k c.rest ≡ some (item, rest)
      → Fanned c
      → Permᴰ (told (c.made ++ (item, s) ∷ []) ++ rest) notifiers
  send-Fanned k item rest s c e h =
      let q : told (c.made ++ (item, s) ∷ []) ++ rest ≡ told c.made ++ item ∷ rest =
        ap (λ l. l ++ rest) (map-append (λ p. p.0) c.made ((item, s) ∷ []))
        ∙ append_assoc (told c.made) (item ∷ []) rest in
      subst (λ l. Permᴰ l notifiers) (sym q)
        (Permᴰ.trans (Permᴰ.append_left (told c.made) (take_out-Perm k c.rest item rest e)) h)

  is_done_lem : (rest : List (Managed W)) → is_done rest ≡ true → rest ≡ []
  is_done_lem [] h = refl
  is_done_lem (item ∷ rest) h = cc

  done-Fanned : (c : Sending W) → is_done c.rest ≡ true → Fanned c → Permᴰ (told c.made) notifiers
  done-Fanned c e h =
      let q : told c.made ++ c.rest ≡ told c.made =
        ap (λ l. told c.made ++ l) (is_done_lem c.rest e) ∙ append-nil (told c.made) in
      subst (λ l. Permᴰ l notifiers) q h

  -- A call, and the others.
  chosen :
      (i : ℕ) (d : Desk W) (c : Sending W) (cs : List (Sending W))
      → take_out i d.calls ≡ some (c, cs)
      → Sound d
      → Fanned c × All Fanned cs
  chosen i d c cs e h = All-perm Fanned (Permᴰ.symm (take_out-Perm i d.calls c cs e)) h.0

  send-Sound : (i k : ℕ) (d : Desk W) → Sound d → Sound (advance notifiers (send_end i k) d)
  unfolding advance
  send-Sound i k d h = elim (Option-cases (take_out i d.calls)) [
    | inl e ↦ rw (advance, e) h
    | inr ((c, cs), e) ↦ elim (Option-cases (take_out k c.rest)) [
      | inl q ↦ rw (advance, e, q) h
      | inr ((item, rest), q) ↦
          let f = chosen i d c cs e h in
          let s = (item.send (send_context item c.ctx) c.msg.title c.msg.body d.world).0 in
          rw (advance, e, q) ((send-Fanned k item rest s c q f.0, f.1), h.1)
    ]
  ]

  return-Sound : (i : ℕ) (d : Desk W) → Sound d → Sound (advance notifiers (notify_return i) d)
  unfolding advance Delivered
  return-Sound i d h = elim (Option-cases (take_out i d.calls)) [
    | inl e ↦ rw (advance, e) h
    | inr ((c, cs), e) ↦ elim (Bool-cases (is_done c.rest)) [
      | inr q ↦ rw (advance, e, q) h
      | inl q ↦
          let f = chosen i d c cs e h in
          rw (advance, e, q) (f.1, ((done-Fanned c q f.0, refl), h.1))
    ]
  ]

  close-Sound :
      (cs : List (Sending W)) (n : ℕ) (d : Desk W) → Sound d → Sound (close_done notifiers cs n d)
  unfolding Delivered
  close-Sound (c ∷ cs) n d h = h
  close-Sound [] zero d h = h
  close-Sound [] (suc n) d h = (h.0, (tt, h.1))

  advance-Sound : (a : Action) (d : Desk W) → Sound d → Sound (advance notifiers a d)
  unfolding advance Delivered
  advance-Sound (notify_call ctx msg) d h = elim (Bool-cases d.closing) [
    | inl e ↦ rw (e) (h.0, (tt, h.1))
    | inr e ↦ rw (e) ((Permᴰ.refl notifiers, h.0), h.1)
  ]
  advance-Sound (send_end i k) d h = send-Sound i k d h
  advance-Sound (notify_return i) d h = return-Sound i d h
  advance-Sound close_call d h = h
  advance-Sound close_return d h = close-Sound d.calls d.waiting d h

  steps-Sound : (as_ : List Action) (d : Desk W) → Sound d → Sound (steps notifiers as_ d)
  unfolding steps
  steps-Sound [] d h = h
  steps-Sound (a ∷ as_) d h = steps-Sound as_ (advance notifiers a d) (advance-Sound a d h)

  -- However the calls of Notify and of Close on a new manager are interleaved, and in whatever order
  -- the goroutines of each call end, every call of Notify that has returned without being refused has
  -- called Send of each channel once, and returns the errors of those that failed or panicked, joined in
  -- the order in which they ended.
  pub notified_once :
      (as_ : List Action) (w : W) → All Delivered (steps notifiers as_ (fresh w)).answers
  notified_once as_ w = (steps-Sound as_ (fresh w) (tt, tt)).1
