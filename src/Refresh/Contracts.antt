-- ===== src/Refresh/Contracts.antt =====
-- internal/refresh/contracts.go: what a refresh needs of its environment, over a world `W`. The
-- world also holds what another process or a server may change. The laws say that these calls leave
-- the stored identity alone: it changes through the store only.
use mtlogin.Prelude.{String, ◌≡◌, Bool, Option, Exec}
use mtlogin.Errors.{GoError, Result}
use mtlogin.Domain.{AuthState, LoginRequest, Profile}
use mtlogin.Context.{Ctx}
use mtlogin.Store.Contract.{StoreView}
use mtlogin.Refresh.Message.{Message}

module _ (W : Type 0) (view : W → StoreView) where
  pub record LoginClient : Type 0 where
    pub generate_visitor_id : Exec W String
    pub login : Ctx → LoginRequest → Exec W (Result AuthState)
    pub visitor_id_keeps : (w : W) → view (generate_visitor_id w).1 ≡ view w
    pub login_keeps : (c : Ctx) (r : LoginRequest) (w : W) → view (login c r w).1 ≡ view w

  -- `Client` and `Session`: a session is a handle `S` on state in the world.
  pub record Client (S : Type 0) : Type 0 where
    pub new_session : AuthState → Exec W S
    pub warmup : S → Ctx → Exec W (Option GoError)
    pub profile : S → Ctx → Exec W (Result Profile)
    pub browse_forum : S → Ctx → Exec W (Bool × Option GoError)
    pub update_last_browse : S → Ctx → Exec W (Option GoError)
    pub snapshot : S → Exec W AuthState
    pub new_session_keeps : (a : AuthState) (w : W) → view (new_session a w).1 ≡ view w
    pub warmup_keeps : (s : S) (c : Ctx) (w : W) → view (warmup s c w).1 ≡ view w
    pub profile_keeps : (s : S) (c : Ctx) (w : W) → view (profile s c w).1 ≡ view w
    pub browse_forum_keeps : (s : S) (c : Ctx) (w : W) → view (browse_forum s c w).1 ≡ view w
    pub update_keeps : (s : S) (c : Ctx) (w : W) → view (update_last_browse s c w).1 ≡ view w
    pub snapshot_keeps : (s : S) (w : W) → view (snapshot s w).1 ≡ view w

  pub record Notifier : Type 0 where
    pub notify : Ctx → Message → Exec W (Option GoError)
    pub notify_keeps : (c : Ctx) (m : Message) (w : W) → view (notify c m w).1 ≡ view w
