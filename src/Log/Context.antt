-- ===== src/Log/Context.antt =====
-- pkg/log/context.go: a context with the log id of a run, and pkg/util/log_id.go, which makes the ids.
use mtlogin.Prelude.{
  ℕ, String, ◌<>◌, Option, none, some, List, [], ◌∷◌, Exec, ℤ, is_empty, if◌then◌else◌,
}
use mtlogin.Errors.{Result, ok, err}
use mtlogin.Context.{Ctx, bounded}
use mtlogin.Log.{Entry, add_field, entry_text}

-- snowflake.NewNode, Generate of a node, the clock, and `%x` of a number.
pub record IdLibrary (N X : Type 0) : Type 0 where
  pub new_node : ℕ → Exec X (Result N)
  pub generate : N → Exec X ℕ
  pub unix_nano : Exec X ℕ
  pub hex : ℕ → String

-- logIDNode and logIDErr, once logIDOnce has run, and the world.
pub record Ids (N X : Type 0) : Type 0 where
  pub node : Option (Result N)
  pub world : X

abbrev pub snowflake_node_id : ℕ
snowflake_node_id = 102

-- Context
pub record LogContext : Type 0 where
  pub base : Ctx
  pub log_id : String

module _ {N X : Type 0} (L : IdLibrary N X) where
  -- logIDOnce.Do
  abbrev pub open_node : Exec (Ids N X) (Result N)
  open_node s = elim s.node [
    | some r ↦ (r, s)
    | none ↦
        let (r, x) = L.new_node snowflake_node_id s.world in
        (r, record { node = some r; world = x })
  ]

  -- NewLogID
  unfoldable pub new_log_id : Exec (Ids N X) String
  new_log_id s =
      let (r, s) = open_node s in
      elim r [
        | err e ↦ let (n, x) = L.unix_nano s.world in (L.hex n, record s { world = x })
        | ok node ↦ let (n, x) = L.generate node s.world in (L.hex n, record s { world = x })
      ]

  -- NewContext
  abbrev pub new_context : Ctx → Exec (Ids N X) LogContext
  new_context parent s = let (id, s) = new_log_id s in (record { base = parent; log_id = id }, s)

-- WrapContext, WithCancel and WithTimeout, by which a context is derived from another
pub data Derivation : Type 0 where
  wrap_context : Ctx → Derivation
  with_cancel : Derivation
  with_timeout : ℤ → Derivation

abbrev pub derived : Derivation → LogContext → LogContext
derived (wrap_context parent) c = record { base = parent; log_id = c.log_id }
derived with_cancel c = c
derived (with_timeout t) c = record c { base = bounded c.base t }

unfoldable pub derive : List Derivation → LogContext → LogContext
derive [] c = c
derive (d ∷ ds) c = derive ds (derived d c)

-- Context.formatPrefix
unfoldable pub format_prefix : LogContext → String
format_prefix c =
    let empty : Entry = record { kv = []; msg = "" } in
    entry_text (if is_empty c.log_id then empty else add_field "logid" c.log_id empty)

-- Context.Debug, Info, Warn and Error: the text that the logger gets
abbrev pub prefixed : LogContext → String → String
prefixed c msg = format_prefix c <> msg
