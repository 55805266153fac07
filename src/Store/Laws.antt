-- ===== src/Store/Laws.antt =====
-- What a client of internal/store/leveldb.go relies on.
use mtlogin.Prelude.{ℕ, ◌≡◌, true, not, arith}
use mtlogin.Errors.{ok}
use mtlogin.Domain.{AuthState, auth_empty}
use mtlogin.Store.Database.{LevelDb}
use mtlogin.Store.Reads.{load_auth_state-eq}
use mtlogin.Store.Writes.{save_contents}
use mtlogin.Store.Implements.{save_state_done}
use mtlogin.Store.{LevelDbStore, Loaded, RangeOrder, load_auth_state, save_auth_state}

module _ {D : Type 0} (L : LevelDb D) where
  -- After a save that answers that it was done, a load that reads without an error returns the state
  -- that was saved, empty fields included, and the epoch that it was saved under; and it reports an
  -- identity exactly if some field is not empty. The orders in which the two range over their maps
  -- do not matter.
  pub load-save :
      (o p : RangeOrder) (state : AuthState) (epoch : ℕ) (s : LevelDbStore D) (x : Loaded)
      → (save_auth_state L o state epoch s).0 ≡ ok true
      → (load_auth_state L p (save_auth_state L o state epoch s).1).0 ≡ ok x
      → (x.state ≡ state) × (x.epoch ≡ epoch) × (x.present ≡ not (auth_empty state))
  load-save o p state epoch s x h k =
      let t = (save_auth_state L o state epoch s).1 in
      let read = load_auth_state-eq L p t k in
      let kept = save_contents L o state epoch s h in
      let done = save_state_done L o state epoch s h in ground (arith, read, kept, done)
