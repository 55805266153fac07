-- ===== src/Store/Writes.antt =====
-- what the writes of internal/store/leveldb.go leave in the database
use mtlogin.Prelude.{ℕ, ◌≡◌, true, not, arith, eq_iff}
use mtlogin.Errors.{ok}
use mtlogin.Domain.{AuthState, auth_empty}
use mtlogin.Store.Database.{LevelDb}
use mtlogin.Store.Reads.{stored, stored_account, holds_identity}
use mtlogin.Store.{
  LevelDbStore, RangeOrder, save_auth_state, token_key, did_key, visitor_id_key, account_key,
  fields, save_batch,
}

module _ {D : Type 0} (L : LevelDb D) where
  -- A successful write of the identity holds exactly the state that was saved, an empty field as an
  -- absent key.
  pub save_contents :
      (o : RangeOrder) (state : AuthState) (epoch : ℕ) (s : LevelDbStore D)
      → (save_auth_state L o state epoch s).0 ≡ ok true
      → let d = (save_auth_state L o state epoch s).1.db in
        (stored L d ≡ state)
        × (holds_identity L d ≡ not (auth_empty state))
        × (stored_account L d ≡ stored_account L s.db)
  unfolding save_auth_state auth_empty
  save_contents o state epoch s h = ground (
    arith,
    L.write_done (save_batch L (fields o) state) s.db token_key,
    L.write_done (save_batch L (fields o) state) s.db did_key,
    L.write_done (save_batch L (fields o) state) s.db visitor_id_key,
    L.write_done (save_batch L (fields o) state) s.db account_key,
    eq_iff state.token "",
    eq_iff state.did "",
    eq_iff state.visitor_id "",
  )
