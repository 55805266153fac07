-- ===== src/Log/Distinct.antt =====
-- The log ids of the runs of one process.
use mtlogin.Prelude.{ℕ, ◌<◌, ◌≡◌, ◌≢◌, refl, sym, ◌∙◌, none, some, List, [], ◌∷◌, All, arith}
use mathlib.Core.Path.{subst}
use mtlogin.Errors.{ok}
use mtlogin.Context.{Ctx, bounded}
use mtlogin.Log.Context.{
  IdLibrary, Ids, LogContext, Derivation, wrap_context, with_cancel, with_timeout, derive,
  snowflake_node_id, new_log_id, new_context,
}

module _ {N X : Type 0} (L : IdLibrary N X) where
  -- A node never gives the same number again, and `%x` tells numbers apart.
  pub record Snowflake : Type 0 where
    pub last : N → X → ℕ
    pub above : (n : N) (x : X) → last n x < (L.generate n x).0
    pub moved : (n : N) (x : X) → last n (L.generate n x).1 ≡ (L.generate n x).0
    pub hex_injective : (i j : ℕ) → L.hex i ≡ L.hex j → i ≡ j

  -- NewContext for each of the runs, and what the program does to the world after it
  unfoldable pub runs : List (X → X) → Ctx → Ids N X → List LogContext
  runs [] parent s = []
  runs (f ∷ fs) parent s =
      let (c, s) = new_context L parent s in
      let rest = runs fs parent (record s { world = f s.world }) in c ∷ rest

  module _ (S : Snowflake) (parent : Ctx) (n : N) where
    -- What the program does makes no log id.
    abbrev pub Elsewhere : (X → X) → Type 0
    Elsewhere f = (x : X) → S.last n (f x) ≡ S.last n x

    abbrev opened : X → Ids N X
    opened x = record { node = some (ok n); world = x }

    abbrev Above : ℕ → LogContext → Type 0
    Above m c = (k : ℕ) × (c.log_id ≡ L.hex k) × (m < k)

    Above-weaken : (m k : ℕ) (cs : List LogContext) → m < k → All (Above k) cs → All (Above m) cs
    Above-weaken m k [] h cs = tt
    Above-weaken m k (c ∷ cs) h ((i, e, l), r) =
        ((i, e, ground (arith, h, l)), Above-weaken m k cs h r)

    runs-Above :
        (fs : List (X → X)) (x : X)
        → All Elsewhere fs
        → All (Above (S.last n x)) (runs fs parent (opened x))
    unfolding runs new_log_id
    runs-Above [] x h = tt
    runs-Above (f ∷ fs) x (e, h) =
        let (k, y) = L.generate n x in
        let rest =
          subst (λ m. All (Above m) (runs fs parent (opened (f y)))) (e y ∙ S.moved n x)
            (runs-Above fs (f y) h) in
        ((k, refl, S.above n x), Above-weaken (S.last n x) k _ (S.above n x) rest)

    -- No context that is derived from the one has the log id of one that is derived from the other.
    unfoldable pub Unlike : LogContext → LogContext → Type 0
    Unlike c b = (ds es : List Derivation) → (derive ds c).log_id ≢ (derive es b).log_id

    unfoldable pub AllUnlike : List LogContext → Type 0
    AllUnlike [] = Unit
    AllUnlike (c ∷ cs) = All (Unlike c) cs × AllUnlike cs

    derive-log_id : (ds : List Derivation) (c : LogContext) → (derive ds c).log_id ≡ c.log_id
    unfolding derive
    derive-log_id [] c = refl
    derive-log_id (wrap_context p ∷ ds) c =
        derive-log_id ds (record { base = p; log_id = c.log_id })
    derive-log_id (with_cancel ∷ ds) c = derive-log_id ds c
    derive-log_id (with_timeout t ∷ ds) c = derive-log_id ds (record c { base = bounded c.base t })

    Above-Unlike : (m : ℕ) (c b : LogContext) → c.log_id ≡ L.hex m → Above m b → Unlike c b
    unfolding Unlike
    Above-Unlike m c b e (k, q, l) ds es h =
        let same =
          S.hex_injective m k (sym e ∙ sym (derive-log_id ds c) ∙ h ∙ derive-log_id es b ∙ q) in
        ground (arith, l, same)

    later_differ :
        (m : ℕ) (c : LogContext) (bs : List LogContext)
        → c.log_id ≡ L.hex m
        → All (Above m) bs
        → All (Unlike c) bs
    later_differ m c [] e h = tt
    later_differ m c (b ∷ bs) e (a, h) = (Above-Unlike m c b e a, later_differ m c bs e h)

    runs-AllUnlike :
        (fs : List (X → X)) (x : X) → All Elsewhere fs → AllUnlike (runs fs parent (opened x))
    unfolding runs new_log_id AllUnlike
    runs-AllUnlike [] x h = tt
    runs-AllUnlike (f ∷ fs) x (e, h) =
        let (k, y) = L.generate n x in
        let later =
          subst (λ m. All (Above m) (runs fs parent (opened (f y)))) (e y ∙ S.moved n x)
            (runs-Above fs (f y) h) in
        (later_differ k _ _ refl later, runs-AllUnlike fs (f y) h)

    -- Where the node can be made in the first run of a process, the contexts of any two runs have
    -- different log ids, and so have all contexts that are derived from them. A node never gives the same
    -- number again, and what the program does between takes no number from it.
    pub runs_apart :
        (fs : List (X → X)) (x : X)
        → All Elsewhere fs
        → (L.new_node snowflake_node_id x).0 ≡ ok n
        → AllUnlike (runs fs parent (record { node = none; world = x }))
    unfolding runs new_log_id AllUnlike
    runs_apart [] x h e = tt
    runs_apart (f ∷ fs) x h e =
        let y = (L.new_node snowflake_node_id x).1 in
        let same : new_log_id L (record { node = none; world = x }) ≡ new_log_id L (opened y) =
          ground (arith, e) in
        rw (same) (runs-AllUnlike (f ∷ fs) y h)
