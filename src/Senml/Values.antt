-- ===== src/Senml/Values.antt =====
-- src/lwm2m/server.rs: the values of SenML records, and their JSON.
use smart_garden_gateway_lwm.Prelude.{
  ◌/◌, ◌%◌, ◌==◌, ℕ, ◌+◌, ◌-◌, ◌^◌, Bool, true, false, Option, none, some, List, [], ◌∷◌, Bytes,
  bytes, ltb, if◌then◌else◌,
}
use smart_garden_gateway_lwm.Json.{Json, Items, Fields}
use smart_garden_gateway_lwm.Json
use smart_garden_gateway_lwm.Ipso.{ResourceType, string_, boolean, opaque, time}

pub data SenmlValue : Type 0 where
  int : ℕ → SenmlValue
  negative_int : ℕ → SenmlValue
  float : ℕ → SenmlValue
  str : Bytes → SenmlValue
  bool : Bool → SenmlValue
  byte_string : Bytes → SenmlValue

-- `i128 as i64`, for the integers of CBOR: the numbers beyond i64 wrap around.
unfoldable pub int_of : ℕ → SenmlValue
int_of n = if ltb n (2 ^ 63) then int n else negative_int (2 ^ 64 - (n + 1))

unfoldable pub negative_of : ℕ → SenmlValue
negative_of n = if ltb n (2 ^ 63) then negative_int n else int (2 ^ 64 - (n + 1))

abbrev stamp : Bytes → Json → ℕ → Json
stamp key v ts = Json.object (Json.field key v (Json.field (bytes "ts") (Json.uint ts) Json.done))

-- A number that is not finite becomes `Null`.
abbrev json_float : ℕ → Json
json_float f = if f / 2 ^ 52 % 2 ^ 11 == 2047 then Json.null else Json.float f

-- base64's encoding, and `i64 as f64` by its bit pattern.
module _ (encode : Bytes → Bytes) (int_as_float : Json → Json) where
  abbrev int_key : ResourceType → Bytes
  int_key time = bytes "vt"
  int_key t = bytes "vi"

  unfoldable pub encode_single_value : SenmlValue → ResourceType → ℕ → Json
  encode_single_value (int n) t ts = stamp (int_key t) (Json.uint n) ts
  encode_single_value (negative_int n) t ts = stamp (int_key t) (Json.negint n) ts
  encode_single_value (float f) t ts = stamp (bytes "vf") (json_float f) ts
  encode_single_value (str s) t ts = stamp (bytes "vs") (Json.text s) ts
  encode_single_value (bool b) t ts = stamp (bytes "vb") (Json.bool b) ts
  encode_single_value (byte_string b) t ts = stamp (bytes "vo") (Json.text (encode b)) ts

  -- The values of one form, the others left out.
  abbrev as_text : SenmlValue → Option Json
  as_text (str s) = some (Json.text s)
  as_text v = none

  abbrev as_bool : SenmlValue → Option Json
  as_bool (bool b) = some (Json.bool b)
  as_bool v = none

  abbrev as_opaque : SenmlValue → Option Json
  as_opaque (byte_string b) = some (Json.text (encode b))
  as_opaque v = none

  abbrev as_int : SenmlValue → Option Json
  as_int (int n) = some (Json.uint n)
  as_int (negative_int n) = some (Json.negint n)
  as_int v = none

  abbrev as_float : SenmlValue → Option Json
  as_float (int n) = some (int_as_float (Json.uint n))
  as_float (negative_int n) = some (int_as_float (Json.negint n))
  as_float (float f) = some (json_float f)
  as_float v = none

  abbrev or_skip : Option Json → Items → Items
  or_skip none items = items
  or_skip (some v) items = Json.cons v items

  unfoldable pub filter_values : (SenmlValue → Option Json) → List SenmlValue → Items
  filter_values f [] = Json.nil
  filter_values f (v ∷ values) = or_skip (f v) (filter_values f values)

  unfoldable pub all_ints : List SenmlValue → Bool
  all_ints [] = true
  all_ints (int n ∷ values) = all_ints values
  all_ints (negative_int n ∷ values) = all_ints values
  all_ints (v ∷ values) = false

  abbrev array_stamp : Bytes → Items → ℕ → Json
  array_stamp key items ts = stamp key (Json.array items) ts

  unfoldable pub encode_numbers : List SenmlValue → ℕ → Json
  unfolding all_ints filter_values
  encode_numbers values ts =
      if all_ints values
      then array_stamp (bytes "ai") (filter_values as_int values) ts
      else array_stamp (bytes "af") (filter_values as_float values) ts

  unfoldable pub encode_array_value : List SenmlValue → ResourceType → ℕ → Json
  unfolding filter_values encode_numbers
  encode_array_value values string_ ts = array_stamp (bytes "as") (filter_values as_text values) ts
  encode_array_value values boolean ts = array_stamp (bytes "ab") (filter_values as_bool values) ts
  encode_array_value values opaque ts = array_stamp (bytes "ao") (filter_values as_opaque values) ts
  encode_array_value values t ts = encode_numbers values ts
