-- ===== src/Store/Epoch.antt =====
-- The epoch of internal/store/leveldb.go over any sequence of calls. The mutex makes each call
-- atomic, so what concurrent clients do is such a sequence.
use mtlogin.Prelude.{ℕ, ◌+◌, ◌%◌, ◌<◌, String, ◌≡◌, false, Option, none, some, List, [], ◌∷◌, arith}
use mtlogin.Errors.{GoError, ok}
use mtlogin.Domain.{AuthState}
use mtlogin.Store.Database.{LevelDb}
use mtlogin.Store.{
  LevelDbStore, RangeOrder, load_auth_state, load_auth_account, save_auth_state, save_auth_account,
  reset_auth_state, epoch_mod,
}

-- A call of one of the five methods.
pub data Call : Type 0 where
  load_state : RangeOrder → Call
  load_account : Call
  save_state : RangeOrder → AuthState → ℕ → Call
  save_account : String → ℕ → Call
  reset : Call

abbrev pub counted : Option GoError → ℕ → ℕ
counted none n = n + 1
counted (some _) n = n

module _ {D : Type 0} (L : LevelDb D) where
  -- The store after the call, and the number of resets that went through, counted on from n.
  unfoldable pub step : Call → LevelDbStore D × ℕ → LevelDbStore D × ℕ
  step (load_state o) (s, n) = ((load_auth_state L o s).1, n)
  step load_account (s, n) = ((load_auth_account L s).1, n)
  step (save_state o state e) (s, n) = ((save_auth_state L o state e s).1, n)
  step (save_account a e) (s, n) = ((save_auth_account L a e s).1, n)
  step reset (s, n) = let (r, s') = reset_auth_state L s in (s', counted r.1 n)

  unfoldable pub calls : List Call → LevelDbStore D × ℕ → LevelDbStore D × ℕ
  calls [] s = s
  calls (c ∷ cs) s = calls cs (step c s)

  step-epoch :
      (c : Call) (s : LevelDbStore D) (n base : ℕ)
      → s.epoch ≡ (base + n) % epoch_mod
      → (step c (s, n)).0.epoch ≡ (base + (step c (s, n)).1) % epoch_mod
  unfolding step load_auth_state load_auth_account save_auth_state save_auth_account
      reset_auth_state
  step-epoch (load_state o) s n base h = ground arith
  step-epoch load_account s n base h = ground arith
  step-epoch (save_state o state e) s n base h = ground arith
  step-epoch (save_account a e) s n base h = ground arith
  step-epoch reset s n base h = ground arith

  calls-epoch :
      (cs : List Call) (s : LevelDbStore D) (n base : ℕ)
      → s.epoch ≡ (base + n) % epoch_mod
      → (calls cs (s, n)).0.epoch ≡ (base + (calls cs (s, n)).1) % epoch_mod
  unfolding calls
  calls-epoch [] s n base h = h
  calls-epoch (c ∷ cs) s n base h =
      let (s', n') = step c (s, n) in calls-epoch cs s' n' base (step-epoch c s n base h)

  -- Whatever calls come between, once at least one reset and fewer than 2^64 of them have gone
  -- through since a client read its epoch, each of the two saves under that epoch answers that
  -- nothing was saved, and leaves the store as it was.
  pub stale_saves_refused :
      (cs : List Call) (s : LevelDbStore D) (o : RangeOrder) (state : AuthState) (account : String)
      → s.epoch < epoch_mod
      → 0 < (calls cs (s, 0)).1
      → (calls cs (s, 0)).1 < epoch_mod
      → let t = (calls cs (s, 0)).0 in
        (save_auth_state L o state s.epoch t ≡ (ok false, t))
        × (save_auth_account L account s.epoch t ≡ (ok false, t))
  unfolding save_auth_state save_auth_account
  stale_saves_refused cs s o state account fits some_reset few =
      let now = calls-epoch cs s 0 s.epoch (omega arith) in (ground arith, ground arith)
