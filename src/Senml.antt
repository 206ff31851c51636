-- ===== src/Senml.antt =====
-- The CBOR values that the crate ciborium decodes, and the SenML records among them.
pub mod Pubkey
pub mod Values
pub mod Payload
pub mod Reports
use smart_garden_gateway_lwm.Prelude.{ℕ, Bool, List, [], ◌∷◌, Bytes}

-- `ciborium::value::Value`: an integer that is not negative, the integer -(n + 1), and the others; a
-- float is its bit pattern.
mutual
  pub data Cbor : Type 0 where
    integer : ℕ → Cbor
    negative : ℕ → Cbor
    float : ℕ → Cbor
    text : Bytes → Cbor
    byte_string : Bytes → Cbor
    bool : Bool → Cbor
    array : CborItems → Cbor
    map : CborPairs → Cbor
    other : Cbor

  pub data CborItems : Type 0 where
    nil : CborItems
    cons : Cbor → CborItems → CborItems

  pub data CborPairs : Type 0 where
    done : CborPairs
    pair : Cbor → Cbor → CborPairs → CborPairs
