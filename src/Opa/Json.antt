-- ===== src/Opa/Json.antt =====
-- The values that encoding/json stores in an `interface{}`, and opa.Result (result.go).
use gql_firewall.Base.{Bytes, Bool, Map, Option}

mutual
  pub data Json : Type 0 where
    null : Json
    bool : Bool → Json
    number : Bytes → Json
    str : Bytes → Json
    array : Items → Json
    object : Members → Json

  pub data Items : Type 0 where
    nil : Items
    cons : Json → Items → Items

  pub data Members : Type 0 where
    end : Members
    member : Bytes → Json → Members → Members

-- `map[string]interface{}`, where `none` is the nil map.
abbrev pub Object : Type 0
Object = Option (Map Json)

pub record Result : Type 0 where
  pub allowed : Bool
  pub reason : Bytes
