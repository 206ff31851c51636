-- ===== src/Bootstrap/Objects.antt =====
-- src/lwm2m/bootstrap.rs: the SenML documents that the write phase of an inclusion sends.
use smart_garden_gateway_lwm.Prelude.{List, [], ◌∷◌, ◌++◌, Bytes, bytes}
use smart_garden_gateway_lwm.Bootstrap.Cbor.{
  cbor_uint, cbor_text, cbor_bytes_val, cbor_array_header, cbor_map_header,
}

-- The labels of SenML, each one byte, and the byte of `false`.
abbrev label_bn : Bytes
label_bn = 33 ∷ []

abbrev label_n : Bytes
label_n = 0 ∷ []

abbrev label_v : Bytes
label_v = 2 ∷ []

abbrev label_vs : Bytes
label_vs = 3 ∷ []

abbrev label_vb : Bytes
label_vb = 4 ∷ []

abbrev label_vd : Bytes
label_vd = 8 ∷ []

abbrev cbor_false : Bytes
cbor_false = 244 ∷ []

abbrev concat : List Bytes → Bytes
concat [] = []
concat (piece ∷ pieces) = piece ++ concat pieces

-- A map of the name and one value.
abbrev entry : Bytes → Bytes → Bytes → Bytes
unfolding cbor_map_header cbor_text
entry name label value = concat (cbor_map_header 2 ∷ label_n ∷ cbor_text name ∷ label ∷ value ∷ [])

-- The first map has the base name, too.
abbrev first_entry : Bytes → Bytes → Bytes → Bytes → Bytes
unfolding cbor_map_header cbor_text
first_entry base name label value =
    concat (
      cbor_map_header 3 ∷ label_bn ∷ cbor_text base ∷ label_n ∷ cbor_text name ∷ label ∷ value ∷ [])

unfoldable pub encode_server_object : Bytes
unfolding cbor_array_header cbor_uint cbor_text entry first_entry
encode_server_object = concat (
    cbor_array_header 4
    ∷ first_entry (bytes "/1/1/") (bytes "0") label_v (cbor_uint 1)
    ∷ entry (bytes "1") label_v (cbor_uint 86400)
    ∷ entry (bytes "6") label_vb cbor_false
    ∷ entry (bytes "7") label_vs (cbor_text (bytes "U"))
    ∷ [])

unfoldable pub encode_security_object : Bytes → Bytes → Bytes → Bytes
unfolding cbor_array_header cbor_uint cbor_text cbor_bytes_val entry first_entry
encode_security_object server_uri server_pubkey network_key = concat (
    cbor_array_header 6
    ∷ first_entry (bytes "/0/1/") (bytes "0") label_vs (cbor_text server_uri)
    ∷ entry (bytes "1") label_vb cbor_false
    ∷ entry (bytes "10") label_v (cbor_uint 1)
    ∷ entry (bytes "2") label_v (cbor_uint 3)
    ∷ entry (bytes "4") label_vd (cbor_bytes_val server_pubkey)
    ∷ entry (bytes "5") label_vd (cbor_bytes_val network_key)
    ∷ [])
