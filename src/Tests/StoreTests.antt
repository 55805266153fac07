-- ===== src/Tests/StoreTests.antt =====
-- internal/store at concrete inputs.
use mtlogin.Prelude.{◌≡◌, refl, true, false, not, [], ◌∷◌, arith, List}
use mtlogin.Errors.{ok}
use mtlogin.Domain.{AuthState, auth_empty}
use mtlogin.Store.{
  tdv, dvt, load_auth_state, save_auth_state, save_auth_account, reset_auth_state, load_fields,
}
use mtlogin.Store.Laws.{load-save}
use mtlogin.Store.Epoch.{Call, save_state, reset, calls, step, stale_saves_refused}
use mtlogin.Tests.Memory.{memory, blank, World}

abbrev pub partial : AuthState
partial = record { token = "t"; did = ""; visitor_id = "v" }

abbrev saved : World
saved = (save_auth_state memory tdv partial 0 blank).1

load-save_example : (partial ≡ partial) × 0 ≡ blank.epoch × (true ≡ not (auth_empty partial))
unfolding load_auth_state save_auth_state load_fields
load-save_example =
    load-save memory tdv dvt partial 0 blank (record { state = partial; epoch = 0; present = true })
      refl refl

abbrev resets : List Call
resets = save_state tdv partial 0 ∷ reset ∷ []

stale_saves_refused_example :
    let t = (calls memory resets (blank, 0)).0 in
    (save_auth_state memory tdv partial 0 t ≡ (ok false, t))
    × (save_auth_account memory "alice" 0 t ≡ (ok false, t))
unfolding calls step reset_auth_state save_auth_state
stale_saves_refused_example =
    stale_saves_refused memory resets blank tdv partial "alice" (omega arith) (omega arith)
      (omega arith)
