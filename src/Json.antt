-- ===== src/Json.antt =====
-- JSON values, as `encoding/json` gives them for `any`.
-- A number is an integer; what is sanitized leaves numbers as they are.
use mtlogin.Prelude.{String, Bool, ℤ}

mutual
  pub data Json : Type 0 where
    null : Json
    boolean : Bool → Json
    integer : ℤ → Json
    string : String → Json
    array : Items → Json
    object : Fields → Json

  pub data Items : Type 0 where
    nil : Items
    cons : Json → Items → Items

  pub data Fields : Type 0 where
    end : Fields
    field : String → Json → Fields → Fields
