-- ===== src/Tests/Memory.antt =====
-- A database in memory, a login and a session that answer by a script: they fulfil what the model
-- assumes of its environment.
use mtlogin.Prelude.{
  String, ◌≡◌, refl, Bool, false, Option, none, some, List, [], ◌∷◌, arith, if◌then◌else◌, pos,
}
use mtlogin.Errors.{GoError, text, Result}
use mtlogin.Domain.{AuthState, Profile}
use mtlogin.Store.Database.{LevelDb, Read, found, not_found, failed, BatchOp, apply_batch}
use mtlogin.Store.{LevelDbStore, tdv}
use mtlogin.Store.Implements.{leveldb_store, view}
use mtlogin.Store.Contract.{Store}
use mtlogin.Refresh.Message.{Format}
use mtlogin.Refresh.Contracts.{LoginClient, Client, Notifier}
use mtlogin.Refresh.Auth.{AuthConfig}
use mtlogin.Refresh.Service.{Service}

-- A disk that works, or one on which every call fails.
pub record Disk : Type 0 where
  pub table : String → Option String
  pub broken : Bool

abbrev pub io_error : GoError
io_error = text "input/output error"

abbrev pub read : Option String → Read
read none = not_found
read (some v) = found v

abbrev pub get : String → Disk → Read × Disk
get k d = (if d.broken then failed io_error else read (d.table k), d)

abbrev pub write : List BatchOp → Disk → Option GoError × Disk
write b d =
    if d.broken then (some io_error, d) else (none, record d { table = apply_batch b d.table })

abbrev pub put : String → String → Disk → Option GoError × Disk
put k v d = write (BatchOp.put k v ∷ []) d

abbrev pub delete : String → Disk → Option GoError × Disk
delete k d = write (BatchOp.delete k ∷ []) d

pub get_keeps : (k j : String) (d : Disk) → (get k d).1.table j ≡ d.table j
get_keeps k j d = refl

pub get_found : (k : String) (d : Disk) (v : String) → (get k d).0 ≡ found v → d.table k ≡ some v
get_found k d v h = ground arith

pub get_not_found : (k : String) (d : Disk) → (get k d).0 ≡ not_found → d.table k ≡ none
get_not_found k d h = ground arith

pub write_done :
    (b : List BatchOp) (d : Disk) (j : String)
    → (write b d).0 ≡ none
    → (write b d).1.table j ≡ apply_batch b d.table j
write_done b (d) j h = ground arith

pub write_failed :
    (b : List BatchOp) (d : Disk) (j : String) (e : GoError)
    → (write b d).0 ≡ some e
    → (write b d).1.table j ≡ d.table j
write_failed b d j e h = ground arith

abbrev pub memory : LevelDb Disk
memory = record {
  get = get;
  write = write;
  put = put;
  delete = delete;
  contents = λ d. d.table;
  get_keeps = get_keeps;
  get_found = get_found;
  get_not_found = get_not_found;
  write_done = write_done;
  write_failed = write_failed;
  put_done = λ k v d j h. write_done (BatchOp.put k v ∷ []) d j h;
  put_failed = λ k v d j e h. write_failed (BatchOp.put k v ∷ []) d j e h;
  delete_done = λ k d j h. write_done (BatchOp.delete k ∷ []) d j h;
  delete_failed = λ k d j e h. write_failed (BatchOp.delete k ∷ []) d j e h;
}

abbrev pub World : Type 0
World = LevelDbStore Disk

abbrev pub blank : World
blank = record { db = record { table = λ k. none; broken = false }; epoch = 0 }

abbrev pub store : Store World
store = leveldb_store memory tdv

-- What the server answers.
pub record Script : Type 0 where
  pub login : Result AuthState
  pub warmup : Option GoError
  pub profile : Result Profile
  pub update : Option GoError
  pub forum : Bool × Option GoError
  pub last : AuthState

abbrev pub format : Format
format = record { gigabytes = λ n. "1.00"; two_places = λ b. "2.00" }

module _ {D : Type 0} (L : LevelDb D) where
  abbrev pub login_on : Script → LoginClient (LevelDbStore D) (view L)
  login_on s = record {
    generate_visitor_id = λ w. ("visitor", w);
    login = λ c r w. (s.login, w);
    visitor_id_keeps = λ w. refl;
    login_keeps = λ c r w. refl;
  }

  abbrev pub client_on : Script → Client (LevelDbStore D) (view L) (Unit {0})
  client_on s = record {
    new_session = λ a w. (tt, w);
    warmup = λ t c w. (s.warmup, w);
    profile = λ t c w. (s.profile, w);
    browse_forum = λ t c w. (s.forum, w);
    update_last_browse = λ t c w. (s.update, w);
    snapshot = λ t w. (s.last, w);
    new_session_keeps = λ a w. refl;
    warmup_keeps = λ t c w. refl;
    profile_keeps = λ t c w. refl;
    browse_forum_keeps = λ t c w. refl;
    update_keeps = λ t c w. refl;
    snapshot_keeps = λ t w. refl;
  }

  abbrev pub notifier_on : Notifier (LevelDbStore D) (view L)
  notifier_on = record { notify = λ c m w. (none, w); notify_keeps = λ c m w. refl }

  abbrev pub service_on : AuthConfig → Script → Service (LevelDbStore D) (Unit {0})
  service_on cfg s = record {
    timeout = pos 60;
    auth = cfg;
    format = format;
    store = leveldb_store L tdv;
    login = login_on s;
    client = client_on s;
    notifier = some notifier_on;
  }

abbrev pub login_client : Script → LoginClient World (view memory)
login_client = login_on memory

abbrev pub client : Script → Client World (view memory) (Unit {0})
client = client_on memory

abbrev pub service : AuthConfig → Script → Service World (Unit {0})
service = service_on memory

-- A disk that never fails.
abbrev pub Table : Type 0
Table = String → Option String

pub read_found : (o : Option String) (v : String) → read o ≡ found v → o ≡ some v
read_found o v h = ground arith

pub read_not_found : (o : Option String) → read o ≡ not_found → o ≡ none
read_not_found o h = ground arith

pub never_failed :
    (b : List BatchOp) (t : Table) (j : String) (e : GoError)
    → none ≡ some e
    → apply_batch b t j ≡ t j
never_failed b t j e h = cc

abbrev pub sturdy : LevelDb Table
sturdy = record {
  get = λ k t. (read (t k), t);
  write = λ b t. (none, apply_batch b t);
  put = λ k v t. (none, apply_batch (BatchOp.put k v ∷ []) t);
  delete = λ k t. (none, apply_batch (BatchOp.delete k ∷ []) t);
  contents = λ t. t;
  get_keeps = λ k j t. refl;
  get_found = λ k t v h. read_found (t k) v h;
  get_not_found = λ k t h. read_not_found (t k) h;
  write_done = λ b t j h. refl;
  write_failed = never_failed;
  put_done = λ k v t j h. refl;
  put_failed = λ k v t j e h. never_failed (BatchOp.put k v ∷ []) t j e h;
  delete_done = λ k t j h. refl;
  delete_failed = λ k t j e h. never_failed (BatchOp.delete k ∷ []) t j e h;
}

abbrev pub alice : Profile
alice = record {
  username = "alice";
  uploaded_bytes = pos 1073741824;
  downloaded_bytes = pos 0;
  bonus = record { bits = 0 };
  last_login = "2026-01-01";
  last_browse = "2026-01-02";
}
