-- ===== src/Notify/Delivery.antt =====
-- Manager.Notify: whom it tells, and what it returns, in whatever order its goroutines run.
use mtlogin.Prelude.{
  ◌<>◌, ◌≡◌, ◌↔◌, refl, sym, ap, ◌∙◌, false, Option, none, some, List, [], ◌∷◌, ◌++◌, map, All,
  arith, Option-cases, inl, inr,
}
use mtlogin.Errors.{GoError, joined, wrapped, text}
use mtlogin.Context.{Ctx, bounded, with_proxy}
use mtlogin.Notify.Manager.{
  Message, Sent, returned, panicked, Managed, Manager, join_errors, send_context, failure, push,
  deliver, notify,
}
use mathlib.Core.Path.{subst}
use mathlib.Core.List.{Permᴰ}

-- The errors that errors.Join put together.
unfoldable pub leaves : GoError → List GoError
leaves (joined e f) = leaves e ++ leaves f
leaves e = e ∷ []

abbrev pub all_leaves : Option GoError → List GoError
all_leaves none = []
all_leaves (some e) = leaves e

-- An error that a channel's goroutine made.
abbrev Single : GoError → Type 0
Single e = leaves e ≡ e ∷ []

all_leaves-join : (es : List GoError) → All Single es → all_leaves (join_errors es) ≡ es
unfolding leaves
all_leaves-join [] h = refl
all_leaves-join (e ∷ es) h = elim (Option-cases (join_errors es)) [
  | inl k ↦ ground (arith, h, k, all_leaves-join es h.1)
  | inr (f, k) ↦ ground (arith, h, k, all_leaves-join es h.1)
]

pub All-perm {ℓ κ} :
    {A : Type ℓ} (P : A → Type κ) {xs ys : List A} → Permᴰ xs ys → All P xs → All P ys
All-perm P Permᴰ.nil h = h
All-perm P (Permᴰ.cons e d) h = (subst P e h.0, All-perm P d h.1)
All-perm P (Permᴰ.swap e f) h = (subst P f h.1.0, (subst P e h.0, h.1.1))
All-perm P (Permᴰ.trans c d) h = All-perm P d (All-perm P c h)

join-none : (es : List GoError) → join_errors es ≡ none → es ≡ []
join-none [] h = refl
join-none (e ∷ es) h = elim (Option-cases (join_errors es)) [
  | inl k ↦ ground (arith, h, k)
  | inr (f, k) ↦ ground (arith, h, k)
]

module _ {W : Type 0} where
  -- What comes of the calls of Send: the errors of those that failed or panicked, in their order.
  unfoldable pub failures : List (Managed W × Sent) → List GoError
  failures [] = []
  failures ((item, returned none) ∷ made) = failures made
  failures ((item, returned (some e)) ∷ made) =
      wrapped (item.name <> ": notify send failed: ") e ∷ failures made
  failures ((item, panicked r) ∷ made) =
      wrapped (item.name <> ": notify send failed: ") (text ("panic: " <> r)) ∷ failures made

  -- Send has returned nil.
  abbrev pub Well : Managed W × Sent → Type 0
  Well (item, s) = s ≡ returned none

  failures-Well : (made : List (Managed W × Sent)) → failures made ≡ [] → All Well made
  unfolding failures
  failures-Well [] h = tt
  failures-Well ((item, returned none) ∷ made) h = (refl, failures-Well made h)
  failures-Well ((item, returned (some e)) ∷ made) h = cc
  failures-Well ((item, panicked r) ∷ made) h = cc

  Well-failures : (made : List (Managed W × Sent)) → All Well made → failures made ≡ []
  unfolding failures
  Well-failures [] h = refl
  Well-failures ((item, returned none) ∷ made) h = Well-failures made h.1
  Well-failures ((item, returned (some e)) ∷ made) h = cc
  Well-failures ((item, panicked r) ∷ made) h = cc

  failures-Single : (made : List (Managed W × Sent)) → All Single (failures made)
  unfolding failures leaves
  failures-Single [] = tt
  failures-Single ((item, returned none) ∷ made) = failures-Single made
  failures-Single ((item, returned (some e)) ∷ made) = (refl, failures-Single made)
  failures-Single ((item, panicked r) ∷ made) = (refl, failures-Single made)

  push-failures :
      (item : Managed W) (s : Sent) (made : List (Managed W × Sent))
      → push (failure item.name s) (failures made) ≡ failures ((item, s) ∷ made)
  unfolding failures
  push-failures item (returned none) made = refl
  push-failures item (returned (some e)) made = refl
  push-failures item (panicked r) made = refl

  module _ (ctx : Ctx) (msg : Message) where
    -- The calls of Send from one world to another: each is made once, under the timeout and the proxy of
    -- its channel, with the title and the body, in the world that the one before it has left.
    unfoldable pub Ran : List (Managed W × Sent) → W → W → Type 0
    Ran [] w z = w ≡ z
    Ran ((item, s) ∷ made) w z =
        let (t, v) =
          item.send (with_proxy (bounded ctx item.timeout) item.proxy) msg.title msg.body w in
        (t ≡ s) × Ran made v z

    abbrev made_by : List (Managed W) → W → List (Managed W × Sent)
    made_by [] w = []
    made_by (item ∷ items) w =
        let (s, v) = item.send (send_context item ctx) msg.title msg.body w in
        (item, s) ∷ made_by items v

    made_by-Ran :
        (items : List (Managed W)) (w : W) → Ran (made_by items w) w (deliver ctx msg items w).1
    unfolding Ran
    made_by-Ran [] w = refl
    made_by-Ran (item ∷ items) w =
        (refl, made_by-Ran items (item.send (send_context item ctx) msg.title msg.body w).1)

    map-made_by : (items : List (Managed W)) (w : W) → map (λ p. p.0) (made_by items w) ≡ items
    map-made_by [] w = refl
    map-made_by (item ∷ items) w =
        ap (λ l. item ∷ l)
          (map-made_by items (item.send (send_context item ctx) msg.title msg.body w).1)

    deliver-failures :
        (items : List (Managed W)) (w : W)
        → (deliver ctx msg items w).0 ≡ failures (made_by items w)
    unfolding failures
    deliver-failures [] w = refl
    deliver-failures (item ∷ items) w =
        let r = item.send (send_context item ctx) msg.title msg.body w in
        ap (λ es. push (failure item.name r.0) es) (deliver-failures items r.1)
        ∙ push-failures item r.0 (made_by items r.1)

    -- A manager that is not closed calls Send of each of its channels once, under the timeout and
    -- the proxy of that channel, whatever the others do, in the order in which the goroutines run; the
    -- errors that it returns are those of the calls that failed or panicked, in that order, and it
    -- returns nil exactly if every call of Send has returned nil.
    pub notify_lem :
        (schedule : List (Managed W) → W → List (Managed W)) (m : Manager W) (w : W)
        → m.closing ≡ false
        → Permᴰ m.notifiers (schedule m.notifiers w)
        → let (e, z) = notify schedule m ctx msg w in
          (made : List (Managed W × Sent)) × Permᴰ m.notifiers (map (λ p. p.0) made)
          × Ran made w z
          × (all_leaves e ≡ failures made)
          × (e ≡ none ↔ All Well made)
    unfolding notify
    notify_lem schedule m w h d =
        let items = schedule m.notifiers w in
        let made = made_by items w in
        let es = deliver-failures items w in
        rw (h) (
          made,
          subst (Permᴰ m.notifiers) (sym (map-made_by items w)) d,
          made_by-Ran items w,
          ap (λ es. all_leaves (join_errors es)) es ∙ all_leaves-join _ (failures-Single made),
          (
            λ e. failures-Well made (sym es ∙ join-none _ e),
            λ e. ap join_errors (es ∙ Well-failures made e),
          ),
        )
