-- ===== src/Store/Implements.antt =====
-- internal/store/leveldb.go fulfils the contract of internal/store/store.go.
use mtlogin.Prelude.{ℕ, String, ◌≡◌, ◌≢◌, true, false, none, some, arith, eq_iff}
use mtlogin.Errors.{GoError, ok, err}
use mtlogin.Domain.{AuthState, no_auth}
use mtlogin.Store.Database.{LevelDb}
use mtlogin.Store.Contract.{Store, StoreView, next_epoch}
use mtlogin.Store.Reads.{stored, stored_account, load_fields_keeps, load_auth_state-eq}
use mtlogin.Store.{
  LevelDbStore, RangeOrder, load_auth_state, load_auth_account, save_auth_state, save_auth_account,
  reset_auth_state, token_key, did_key, visitor_id_key, account_key, fields, save_batch,
  reset_batch,
}

module _ {D : Type 0} (L : LevelDb D) where
  abbrev pub view : LevelDbStore D → StoreView
  view s = record { auth = stored L s.db; account = stored_account L s.db; epoch = s.epoch }

  pub load_state_keeps :
      (o : RangeOrder) (s : LevelDbStore D) → view (load_auth_state L o s).1 ≡ view s
  unfolding load_auth_state
  load_state_keeps o s =
      let keeps = load_fields_keeps L (fields o) no_auth false s.db in
      ground (arith, keeps token_key, keeps did_key, keeps visitor_id_key, keeps account_key)

  pub load_account_keeps : (s : LevelDbStore D) → view (load_auth_account L s).1 ≡ view s
  unfolding load_auth_account
  load_account_keeps s =
      let keeps = λ (j : String). L.get_keeps account_key j s.db in
      ground (arith, keeps token_key, keeps did_key, keeps visitor_id_key, keeps account_key)

  pub load_account_reads :
      (s : LevelDbStore D) (a : String)
      → (load_auth_account L s).0 ≡ ok a
      → a ≡ stored_account L s.db
  unfolding load_auth_account
  load_account_reads s a h =
      ground (arith, L.get_found account_key s.db a, L.get_not_found account_key s.db)

  module _ (o : RangeOrder) (state : AuthState) (epoch : ℕ) (s : LevelDbStore D) where
    pub save_state_done :
        (save_auth_state L o state epoch s).0 ≡ ok true
        → (epoch ≡ s.epoch)
          × (view (save_auth_state L o state epoch s).1
              ≡ record { auth = state; account = stored_account L s.db; epoch = s.epoch })
    unfolding save_auth_state
    save_state_done h =
        let done = L.write_done (save_batch L (fields o) state) s.db in
        ground (
          arith,
          done token_key,
          done did_key,
          done visitor_id_key,
          done account_key,
          eq_iff state.token "",
          eq_iff state.did "",
          eq_iff state.visitor_id "",
        )

    pub save_state_refused :
        (save_auth_state L o state epoch s).0 ≡ ok false
        → (epoch ≢ s.epoch) × (view (save_auth_state L o state epoch s).1 ≡ view s)
    unfolding save_auth_state
    save_state_refused h = ground arith

    pub save_state_failed :
        (q : GoError)
        → (save_auth_state L o state epoch s).0 ≡ err q
        → view (save_auth_state L o state epoch s).1 ≡ view s
    unfolding save_auth_state
    save_state_failed q h =
        let kept = λ (j : String). L.write_failed (save_batch L (fields o) state) s.db j q in
        ground (arith, kept token_key, kept did_key, kept visitor_id_key, kept account_key)

  module _ (account : String) (epoch : ℕ) (s : LevelDbStore D) where
    pub save_account_done :
        (save_auth_account L account epoch s).0 ≡ ok true
        → (epoch ≡ s.epoch)
          × (view (save_auth_account L account epoch s).1
              ≡ record { auth = stored L s.db; account = account; epoch = s.epoch })
    unfolding save_auth_account
    save_account_done h =
        let put = L.put_done account_key account s.db in
        let deleted = L.delete_done account_key s.db in
        ground (
          arith,
          put token_key,
          put did_key,
          put visitor_id_key,
          put account_key,
          deleted token_key,
          deleted did_key,
          deleted visitor_id_key,
          deleted account_key,
          eq_iff account "",
        )

    pub save_account_refused :
        (save_auth_account L account epoch s).0 ≡ ok false
        → (epoch ≢ s.epoch) × (view (save_auth_account L account epoch s).1 ≡ view s)
    unfolding save_auth_account
    save_account_refused h = ground arith

    pub save_account_failed :
        (q : GoError)
        → (save_auth_account L account epoch s).0 ≡ err q
        → view (save_auth_account L account epoch s).1 ≡ view s
    unfolding save_auth_account
    save_account_failed q h =
        let put = λ (j : String). L.put_failed account_key account s.db j q in
        let deleted = λ (j : String). L.delete_failed account_key s.db j q in
        ground (
          arith,
          put token_key,
          put did_key,
          put visitor_id_key,
          put account_key,
          deleted token_key,
          deleted did_key,
          deleted visitor_id_key,
          deleted account_key,
        )

  pub reset_done :
      (s : LevelDbStore D)
      → (reset_auth_state L s).0.1 ≡ none
      → ((reset_auth_state L s).0.0 ≡ next_epoch s.epoch)
        × (view (reset_auth_state L s).1
            ≡ record { auth = no_auth; account = ""; epoch = next_epoch s.epoch })
  unfolding reset_auth_state
  reset_done s h =
      let done = L.write_done (reset_batch L) s.db in
      ground (arith, done token_key, done did_key, done visitor_id_key, done account_key)

  pub reset_failed :
      (s : LevelDbStore D) (q : GoError)
      → (reset_auth_state L s).0.1 ≡ some q
      → view (reset_auth_state L s).1 ≡ view s
  unfolding reset_auth_state
  reset_failed s q h =
      let kept = λ (j : String). L.write_failed (reset_batch L) s.db j q in
      ground (arith, kept token_key, kept did_key, kept visitor_id_key, kept account_key)

  -- The store of internal/store, ranging over its map literals in the order `o`.
  abbrev pub leveldb_store : RangeOrder → Store (LevelDbStore D)
  leveldb_store o = record {
    load_auth_state = load_auth_state L o;
    load_auth_account = load_auth_account L;
    save_auth_state = save_auth_state L o;
    save_auth_account = save_auth_account L;
    reset_auth_state = reset_auth_state L;
    view = view;
    load_state_keeps = load_state_keeps o;
    load_state_reads = λ s x h. let (a, b, c) = load_auth_state-eq L o s h in (a, b);
    load_account_keeps = load_account_keeps;
    load_account_reads = load_account_reads;
    save_state_done = save_state_done o;
    save_state_refused = save_state_refused o;
    save_state_failed = save_state_failed o;
    save_account_done = save_account_done;
    save_account_refused = save_account_refused;
    save_account_failed = save_account_failed;
    reset_done = reset_done;
    reset_failed = reset_failed;
  }
