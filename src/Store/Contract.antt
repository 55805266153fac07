-- ===== src/Store/Contract.antt =====
-- internal/store/store.go and the `Store` of internal/refresh/contracts.go: the store as its clients
-- see it, over any world `W`. The laws say what each call does to the identity, the account and the
-- epoch that are stored; internal/store fulfils them (Store/Implements.antt).
use mtlogin.Prelude.{ℕ, ◌+◌, ◌%◌, String, ◌≡◌, ◌≢◌, Bool, true, false, Option, none, some, Exec}
use mtlogin.Errors.{GoError, Result, ok, err}
use mtlogin.Domain.{AuthState, no_auth}
use mtlogin.Store.{Loaded, epoch_mod}

pub record StoreView : Type 0 where
  pub auth : AuthState
  pub account : String
  pub epoch : ℕ

abbrev pub next_epoch : ℕ → ℕ
next_epoch e = (e + 1) % epoch_mod

pub record Store (W : Type 0) : Type 0 where
  pub load_auth_state : Exec W (Result Loaded)
  pub load_auth_account : Exec W (Result String)
  pub save_auth_state : AuthState → ℕ → Exec W (Result Bool)
  pub save_auth_account : String → ℕ → Exec W (Result Bool)
  pub reset_auth_state : Exec W (ℕ × Option GoError)
  pub view : W → StoreView
  pub load_state_keeps : (w : W) → view (load_auth_state w).1 ≡ view w
  pub load_state_reads :
      (w : W) (x : Loaded)
      → (load_auth_state w).0 ≡ ok x
      → (x.state ≡ (view w).auth) × (x.epoch ≡ (view w).epoch)
  pub load_account_keeps : (w : W) → view (load_auth_account w).1 ≡ view w
  pub load_account_reads :
      (w : W) (a : String) → (load_auth_account w).0 ≡ ok a → a ≡ (view w).account
  pub save_state_done :
      (s : AuthState) (e : ℕ) (w : W)
      → (save_auth_state s e w).0 ≡ ok true
      → (e ≡ (view w).epoch)
        × (view (save_auth_state s e w).1
            ≡ record { auth = s; account = (view w).account; epoch = (view w).epoch })
  pub save_state_refused :
      (s : AuthState) (e : ℕ) (w : W)
      → (save_auth_state s e w).0 ≡ ok false
      → (e ≢ (view w).epoch) × (view (save_auth_state s e w).1 ≡ view w)
  pub save_state_failed :
      (s : AuthState) (e : ℕ) (w : W) (q : GoError)
      → (save_auth_state s e w).0 ≡ err q
      → view (save_auth_state s e w).1 ≡ view w
  pub save_account_done :
      (a : String) (e : ℕ) (w : W)
      → (save_auth_account a e w).0 ≡ ok true
      → (e ≡ (view w).epoch)
        × (view (save_auth_account a e w).1
            ≡ record { auth = (view w).auth; account = a; epoch = (view w).epoch })
  pub save_account_refused :
      (a : String) (e : ℕ) (w : W)
      → (save_auth_account a e w).0 ≡ ok false
      → (e ≢ (view w).epoch) × (view (save_auth_account a e w).1 ≡ view w)
  pub save_account_failed :
      (a : String) (e : ℕ) (w : W) (q : GoError)
      → (save_auth_account a e w).0 ≡ err q
      → view (save_auth_account a e w).1 ≡ view w
  pub reset_done :
      (w : W)
      → (reset_auth_state w).0.1 ≡ none
      → ((reset_auth_state w).0.0 ≡ next_epoch (view w).epoch)
        × (view (reset_auth_state w).1
            ≡ record { auth = no_auth; account = ""; epoch = next_epoch (view w).epoch })
  pub reset_failed :
      (w : W) (q : GoError)
      → (reset_auth_state w).0.1 ≡ some q
      → view (reset_auth_state w).1 ≡ view w
