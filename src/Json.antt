-- ===== src/Json.antt =====
-- `serde_json::Value`. A number keeps the three forms of `serde_json::Number`: `uint` and `negint`
-- (the integer -(n + 1)) and `float`, an f64 by its bit pattern.
pub mod Merge
pub mod Entries
pub mod Idempotent
use smart_garden_gateway_lwm.Prelude.{ℕ, Bytes, Bool, true, false}

mutual
  pub data Json : Type 0 where
    null : Json
    bool : Bool → Json
    uint : ℕ → Json
    negint : ℕ → Json
    float : ℕ → Json
    text : Bytes → Json
    array : Items → Json
    object : Fields → Json

  pub data Items : Type 0 where
    nil : Items
    cons : Json → Items → Items

  -- The entries of a `serde_json::Map`.
  pub data Fields : Type 0 where
    done : Fields
    field : Bytes → Json → Fields → Fields

abbrev pub is_object : Json → Bool
is_object (object t) = true
is_object v = false
