-- ===== src/Ipc/Values.antt =====
-- src/ipc/command.rs: what is read from the JSON of a request, and what is written of a response.
use mathlib.Core.Option
use smart_garden_gateway_lwm.Prelude.{
  ℕ, ◌+◌, ◌-◌, ◌^◌, Bool, true, false, ◌&&◌, Option, none, some, List, [], ◌∷◌, Bytes, bytes, ltb,
  leb, ◌==◌, if◌then◌else◌, length, drop, list_dec, ℕ_discrete,
}
use smart_garden_gateway_lwm.Text.{decimal}
use smart_garden_gateway_lwm.Json.{
  Json, Items, null, bool, uint, negint, text, array, object, nil, cons,
}
use smart_garden_gateway_lwm.Json.Merge.{entry}
use smart_garden_gateway_lwm.Ipc.{Env}

unfoldable pub same_text : Bytes → Bytes → Bool
unfolding list_dec
same_text a b = elim (list_dec ℕ_discrete a b) [ yes p ↦ true | no n ↦ false ]

-- `value[key]`: `Null` where there is none.
abbrev pub index : Json → Bytes → Json
index (object t) key = entry t key
index v key = null

abbrev pub as_str : Json → Option Bytes
as_str (text s) = some s
as_str v = none

-- `as_str().unwrap_or("")`
abbrev pub str_or_empty : Json → Bytes
str_or_empty v = elim (as_str v) [ some s ↦ s | none ↦ [] ]

abbrev pub as_bool : Json → Option Bool
as_bool (bool b) = some b
as_bool v = none

abbrev pub as_array : Json → Option Items
as_array (array items) = some items
as_array v = none

-- The decimal text of `as_i64()`; the number -(n + 1) is an i64 where n is below 2 ^ 63.
abbrev pub i64_text : Json → Option Bytes
unfolding decimal
i64_text (uint n) = if ltb n (2 ^ 63) then some (decimal n) else none
i64_text (negint n) = if ltb n (2 ^ 63) then some (b'-' ∷ decimal (n + 1)) else none
i64_text v = none

-- `execute_args`: the first argument, if it is a text.
abbrev first_arg : Option Items → Option Bytes
first_arg none = none
first_arg (some nil) = none
first_arg (some (cons v items)) = as_str v

unfoldable pub execute_args : Json → Option Bytes
execute_args payload = first_arg (as_array (index payload (bytes "as")))

-- The first of several results.
abbrev pub or_next : Option (Bytes × ℕ) → Option (Bytes × ℕ) → Option (Bytes × ℕ)
or_next (some r) later = some r
or_next none later = later

-- A value in the plain text format, or as opaque bytes.
abbrev pub plain : Option Bytes → Option (Bytes × ℕ)
plain o = Option.map (λ b. (b, 0)) o

abbrev pub opaque : Option Bytes → Option (Bytes × ℕ)
opaque o = Option.map (λ b. (b, 42)) o

abbrev bool_text : Bool → Bytes
bool_text true = bytes "1"
bool_text false = bytes "0"

abbrev decoded : Env → Option Bytes → Option Bytes
decoded env none = none
decoded env (some s) = env.base64_decode s

-- `encode_write_payload`: the value and its content format.
unfoldable pub encode_write_payload : Env → Json → Option (Bytes × ℕ)
unfolding i64_text
encode_write_payload env payload = or_next (plain (as_str (index payload (bytes "vs")))) (
    or_next (plain (i64_text (index payload (bytes "vi")))) (
      or_next (plain (env.float_text (index payload (bytes "vf")))) (
        or_next (plain (Option.map bool_text (as_bool (index payload (bytes "vb"))))) (
          or_next (plain (i64_text (index payload (bytes "vt"))))
            (opaque (decoded env (as_str (index payload (bytes "vo")))))))))

-- `path.starts_with(prefix)` and `path.ends_with(suffix)`
unfoldable pub starts_with : Bytes → Bytes → Bool
starts_with t [] = true
starts_with [] (p ∷ ps) = false
starts_with (b ∷ t) (p ∷ ps) = (b == p) && starts_with t ps

unfoldable pub ends_with : Bytes → Bytes → Bool
unfolding same_text
ends_with t suffix =
    leb (length suffix) (length t) && same_text (drop (length t - length suffix) t) suffix

-- The names of the CoAP codes.
abbrev status_names : List ((ℕ × ℕ) × Bytes)
status_names =
    ((2, 1), bytes "CREATED")
    ∷ ((2, 2), bytes "DELETED")
    ∷ ((2, 3), bytes "VALID")
    ∷ ((2, 4), bytes "CHANGED")
    ∷ ((2, 5), bytes "CONTENT")
    ∷ ((4, 0), bytes "BAD_REQUEST")
    ∷ ((4, 1), bytes "UNAUTHORIZED")
    ∷ ((4, 2), bytes "BAD_OPTION")
    ∷ ((4, 3), bytes "FORBIDDEN")
    ∷ ((4, 4), bytes "NOT_FOUND")
    ∷ ((4, 5), bytes "METHOD_NOT_ALLOWED")
    ∷ ((4, 6), bytes "NOT_ACCEPTABLE")
    ∷ ((4, 12), bytes "PRECONDITION_FAILED")
    ∷ ((4, 13), bytes "REQUEST_ENTITY_TOO_LARGE")
    ∷ ((4, 15), bytes "UNSUPPORTED_CONTENT_FORMAT")
    ∷ ((5, 0), bytes "INTERNAL_SERVER_ERROR")
    ∷ ((5, 1), bytes "NOT_IMPLEMENTED")
    ∷ ((5, 2), bytes "BAD_GATEWAY")
    ∷ ((5, 3), bytes "SERVICE_UNAVAILABLE")
    ∷ ((5, 4), bytes "GATEWAY_TIMEOUT")
    ∷ ((5, 5), bytes "PROXYING_NOT_SUPPORTED")
    ∷ []

unfoldable pub name_in : List ((ℕ × ℕ) × Bytes) → ℕ → ℕ → Bytes
name_in [] class detail = bytes "UNKNOWN"
name_in (((c, d), name) ∷ names) class detail =
    let later = name_in names class detail in if (c == class) && (d == detail) then name else later

unfoldable pub coap_status_name : ℕ → ℕ → Bytes
unfolding name_in
coap_status_name class detail = name_in status_names class detail
