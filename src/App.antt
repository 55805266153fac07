-- ===== src/App.antt =====
-- internal/app/app.go and main.go: what the process acquires, in which order it lets it go, and its
-- exit code.
pub mod Release
pub mod Assembly
pub mod Success
use mtlogin.Prelude.{
  ℕ, Bool, true, false, Option, none, some, List, [], ◌∷◌, Exec, ◌==◌, if◌then◌else◌,
}
use mtlogin.Errors.{GoError, joined, Result, ok, err}
use mtlogin.Config.{
  Library, AppConfig, AuthClientConfig, BrowseConfig, load_app, build_mteam_configs,
  map_config_error,
}

-- The fields of `App` that `Close` stops or closes.
pub data Part : Type 0 where
  store transport manager runtime scheduler : Part

abbrev pub number : Part → ℕ
number store = 0
number transport = 1
number manager = 2
number runtime = 3
number scheduler = 4

-- What has happened to a part: it was opened or built, or closed or stopped.
pub data Event : Type 0 where
  opened closed : Part → Event

-- The world, and for theorems the events, the latest first.
pub record Life (W : Type 0) : Type 0 where
  pub world : W
  pub events : List Event

-- What `New`, `Start`, `RunOnce` and `Close` call in the other packages. `Stop` of the runtime and
-- of the scheduler returns no error: `close` is `none` there.
pub record Packages (W : Type 0) : Type 0 where
  pub load_notify_config : Exec W (Option GoError)
  pub open_default : Exec W (Result (Unit {0}))
  pub new_tls_client : Exec W (Result (Unit {0}))
  pub new_auth_client : AuthClientConfig → Exec W (Option GoError)
  pub new_browse_client : BrowseConfig → Exec W (Option GoError)
  pub new_scheduler : AppConfig → Exec W (Option GoError)
  pub close : Part → Exec W (Option GoError)
  pub run_once : Exec W (Option GoError)
  pub start : Exec W (Option GoError)

-- errors.Join; a single error that it wraps alone is that error here.
abbrev pub join : Option GoError → Option GoError → Option GoError
join none f = f
join (some e) none = some e
join (some e) (some f) = some (joined e f)

module _ {W : Type 0} (G : Library) (P : Packages W) where
  abbrev on : {A : Type 0} → Exec W A → Exec (Life W) A
  on m y = let (a, w) = m y.world in (a, record y { world = w })

  abbrev note : Event → Life W → Life W
  note e y = record y { events = e ∷ y.events }

  abbrev close_part : Part → Exec (Life W) (Option GoError)
  close_part p y =
      let (e, w) = P.close p y.world in (e, record { world = w; events = closed p ∷ y.events })

  -- the closes of an error path, whose errors are dropped
  abbrev release : List Part → Life W → Life W
  release [] y = y
  release (p ∷ ps) y = release ps (close_part p y).1

  -- New from the notification manager on
  unfoldable pub build_scheduler : AppConfig → Exec (Life W) (Result (Unit {0}))
  build_scheduler cfg y =
      let y = note (opened runtime) (note (opened manager) y) in
      let (e, y) = on (P.new_scheduler cfg) y in
      elim e [
        | some q ↦ (err q, release (manager ∷ transport ∷ store ∷ []) y)
        | none ↦ (ok tt, note (opened scheduler) y)
      ]

  unfoldable pub build_clients :
      AppConfig → AuthClientConfig → BrowseConfig → Exec (Life W) (Result (Unit {0}))
  build_clients cfg auth browse y =
      let (e, y) = on (P.new_auth_client auth) y in
      elim e [
        | some q ↦ (err q, release (transport ∷ store ∷ []) y)
        | none ↦
            let (f, y) = on (P.new_browse_client browse) y in
            elim f [
              | some q ↦ (err q, release (transport ∷ store ∷ []) y)
              | none ↦ build_scheduler cfg y
            ]
      ]

  unfoldable pub open_all :
      AppConfig → AuthClientConfig → BrowseConfig → Exec (Life W) (Result (Unit {0}))
  open_all cfg auth browse y =
      let (_, y) = on P.load_notify_config y in
      let (r, y) = on P.open_default y in
      elim r [
        | err e ↦ (err e, y)
        | ok _ ↦
            let y = note (opened store) y in
            let (t, y) = on P.new_tls_client y in
            elim t [
              | err e ↦ (err e, release (store ∷ []) y)
              | ok _ ↦ build_clients cfg auth browse (note (opened transport) y)
            ]
      ]

  -- New
  unfoldable pub new : Exec (Life W) (Result (Unit {0}))
  new y = elim (load_app G "conf/app.toml") [
    | err e ↦ (err (map_config_error e), y)
    | ok cfg ↦ elim (build_mteam_configs G cfg.mt) [
      | err e ↦ (err e, y)
      | ok (auth, browse) ↦ open_all cfg auth browse y
    ]
  ]

  -- the function that closeOnce runs
  unfoldable pub close_parts : Exec (Life W) (Option GoError)
  close_parts y =
      let (_, y) = close_part runtime y in
      let (_, y) = close_part scheduler y in
      let (e, y) = close_part manager y in
      let (f, y) = close_part transport y in
      let (g, y) = close_part store y in (join e (join f g), y)

  -- Close of an application that New returned: what it returns, and `closeErr` once it has run.
  unfoldable pub close :
      Option (Option GoError) → Exec (Life W) (Option GoError × Option (Option GoError))
  close (some e) y = ((e, some e), y)
  close none y = let (e, y) = close_parts y in ((e, some e), y)

  abbrev exit_code : Option GoError → Option GoError → ℕ
  exit_code (some e) worked = 1
  exit_code none (some e) = 1
  exit_code none none = 0

  -- execute, with app.New as the factory
  unfoldable pub execute : Bool → Exec (Life W) ℕ
  execute local_run y =
      let (r, y) = new y in
      elim r [
        | err e ↦ (1, y)
        | ok _ ↦
            let (worked, y) = on (if local_run then P.run_once else P.start) y in
            let (c, y) = close none y in (exit_code c.0 worked, y)
      ]
