-- ===== src/Store.antt =====
-- internal/store: the identity of the password mode, kept in a LevelDB and guarded by an epoch.
-- Every method holds the mutex `mu` for its whole body, so a method is one step on the state.
pub mod Database
pub mod Reads
pub mod Writes
pub mod Contract
pub mod Implements
pub mod Epoch
pub mod Laws
pub mod Opening
use mtlogin.Prelude.{
  ℕ, ◌+◌, ◌%◌, ◌^◌, String, Bool, true, false, Option, none, some, List, [], ◌∷◌, Exec, is_empty,
  ◌==◌, if◌then◌else◌,
}
use mtlogin.Errors.{GoError, Result, ok, err}
use mtlogin.Domain.{AuthState, no_auth}
use Database.{LevelDb, Read, found, not_found, failed, BatchOp, put, delete}

abbrev pub token_key : String
token_key = "m-team-auth"

abbrev pub did_key : String
did_key = "m-team-did"

abbrev pub visitor_id_key : String
visitor_id_key = "m-team-visitorid"

abbrev pub account_key : String
account_key = "m-team-account"

-- The entries of the map literals that `LoadAuthState` and `SaveAuthState` range over.
pub data Field : Type 0 where
  token_field did_field visitor_id_field : Field

abbrev pub key_of : Field → String
key_of token_field = token_key
key_of did_field = did_key
key_of visitor_id_field = visitor_id_key

abbrev pub value_of : Field → AuthState → String
value_of token_field s = s.token
value_of did_field s = s.did
value_of visitor_id_field s = s.visitor_id

-- *target = value
abbrev pub assign : Field → String → AuthState → AuthState
assign token_field v s = record s { token = v }
assign did_field v s = record s { did = v }
assign visitor_id_field v s = record s { visitor_id = v }

-- Go ranges over a map in any order: the six orders of three entries.
pub data RangeOrder : Type 0 where
  tdv tvd dtv dvt vtd vdt : RangeOrder

abbrev pub fields : RangeOrder → List Field
fields tdv = token_field ∷ did_field ∷ visitor_id_field ∷ []
fields tvd = token_field ∷ visitor_id_field ∷ did_field ∷ []
fields dtv = did_field ∷ token_field ∷ visitor_id_field ∷ []
fields dvt = did_field ∷ visitor_id_field ∷ token_field ∷ []
fields vtd = visitor_id_field ∷ token_field ∷ did_field ∷ []
fields vdt = visitor_id_field ∷ did_field ∷ token_field ∷ []

abbrev pub epoch_mod : ℕ
epoch_mod = 2 ^ 64

-- What `LoadAuthState` returns beside a nil error.
pub record Loaded : Type 0 where
  pub state : AuthState
  pub epoch : ℕ
  pub present : Bool

-- The open database and the epoch, a uint64 that starts at 0 in each process.
pub record LevelDbStore (D : Type 0) : Type 0 where
  pub db : D
  pub epoch : ℕ

module _ {D : Type 0} (L : LevelDb D) where
  -- the loop of `LoadAuthState`
  unfoldable pub load_fields : List Field → AuthState → Bool → Exec D (Result (AuthState × Bool))
  load_fields [] s present d = (ok (s, present), d)
  load_fields (f ∷ fs) s present d =
      let (r, d') = L.get (key_of f) d in
      elim r [
        | found v ↦ load_fields fs (assign f v s) true d'
        | not_found ↦ load_fields fs s present d'
        | failed e ↦ (err e, d')
      ]

  unfoldable pub load_auth_state : RangeOrder → Exec (LevelDbStore D) (Result Loaded)
  load_auth_state o s =
      let (r, d) = load_fields (fields o) no_auth false s.db in
      (
        elim r [
          | ok (state, present) ↦ ok (record { state = state; epoch = s.epoch; present = present })
          | err e ↦ err e
        ],
        record s { db = d },
      )

  unfoldable pub load_auth_account : Exec (LevelDbStore D) (Result String)
  load_auth_account s =
      let (r, d) = L.get account_key s.db in
      (elim r [ found v ↦ ok v | not_found ↦ ok "" | failed e ↦ err e ], record s { db = d })

  abbrev pub save_op : Field → AuthState → BatchOp
  save_op f s = let v = value_of f s in if is_empty v then delete (key_of f) else put (key_of f) v

  abbrev pub save_batch : List Field → AuthState → List BatchOp
  save_batch [] s = []
  save_batch (f ∷ fs) s = save_op f s ∷ save_batch fs s

  -- `saved` and the error of a write
  abbrev pub written : Option GoError → Result Bool
  written none = ok true
  written (some e) = err e

  unfoldable pub save_auth_state : RangeOrder → AuthState → ℕ → Exec (LevelDbStore D) (Result Bool)
  save_auth_state o state epoch s =
      if epoch == s.epoch
      then (let (e, d) = L.write (save_batch (fields o) state) s.db in
          (written e, record s { db = d }))
      else (ok false, s)

  unfoldable pub save_auth_account : String → ℕ → Exec (LevelDbStore D) (Result Bool)
  save_auth_account account epoch s =
      if epoch == s.epoch
      then (let (e, d) =
            (if is_empty account
              then L.delete account_key s.db
              else L.put account_key account s.db) in
          (written e, record s { db = d }))
      else (ok false, s)

  abbrev pub reset_batch : List BatchOp
  reset_batch = delete token_key ∷ delete did_key ∷ delete visitor_id_key ∷ delete account_key ∷ []

  abbrev pub finish_reset : ℕ → Option GoError → D → (ℕ × Option GoError) × LevelDbStore D
  finish_reset epoch (some e) d = ((epoch, some e), record { db = d; epoch = epoch })
  finish_reset epoch none d =
      let next = (epoch + 1) % epoch_mod in ((next, none), record { db = d; epoch = next })

  -- The epoch comes back beside the error too: the old one.
  unfoldable pub reset_auth_state : Exec (LevelDbStore D) (ℕ × Option GoError)
  reset_auth_state s = let (e, d) = L.write reset_batch s.db in finish_reset s.epoch e d
