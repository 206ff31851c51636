-- ===== src/Coap.antt =====
-- src/lwm2m/mod.rs: response codes, content formats, endpoint names. The packet type is what the
-- program sets and reads of a `coap_lite::Packet`; its encoding to bytes is no part of it.
pub mod Names
use smart_garden_gateway_lwm.Prelude.{
  ℕ, ◌+◌, ◌-◌, ◌*◌, ◌/◌, ◌%◌, Bool, true, false, Option, none, some, List, [], ◌∷◌, ◌++◌, map,
  Bytes, bytes, ltb, leb, ◌==◌, if◌then◌else◌, keep_if,
}
use smart_garden_gateway_lwm.Model.{Token, LwM2mResult, success, failure, coap_response, coap_error}
use smart_garden_gateway_lwm.Text.{after_last}

-- `coap_lite::ResponseType`, whose other codes the program does not tell apart.
pub data Status : Type 0 where
  created deleted valid changed content continue : Status
  bad_request unauthorized bad_option forbidden not_found : Status
  method_not_allowed not_acceptable precondition_failed : Status
  request_entity_too_large unsupported_content_format : Status
  internal_server_error not_implemented bad_gateway : Status
  service_unavailable gateway_timeout proxying_not_supported : Status
  other_status : Status

pub data Method : Type 0 where
  get_method post put delete : Method
  other_method : Method

pub data MessageClass : Type 0 where
  empty_class : MessageClass
  request : Method → MessageClass
  response : Status → MessageClass
  reserved : ℕ → MessageClass

pub data MessageType : Type 0 where
  confirmable non_confirmable acknowledgement reset : MessageType

-- The number of an option (RFC 7252, section 5.10, and RFC 7959).
abbrev pub location_path : ℕ
location_path = 8

abbrev pub uri_path : ℕ
uri_path = 11

abbrev pub content_format : ℕ
content_format = 12

abbrev pub uri_query : ℕ
uri_query = 15

abbrev pub block1 : ℕ
block1 = 27

pub record Packet : Type 0 where
  pub kind : MessageType
  pub code : MessageClass
  pub message_id : ℕ
  pub token : Token
  pub options : List (ℕ × Bytes)
  pub payload : Bytes

-- `packet.add_option(number, value)`
abbrev pub add_option : ℕ → Bytes → Packet → Packet
add_option number value p = record p { options = p.options ++ ((number, value) ∷ []) }

-- `packet.get_option(number)`: the values under the number, in their order.
abbrev pub get_option : ℕ → Packet → List Bytes
get_option number p = map (λ o. o.1) (keep_if (λ o. o.0 == number) p.options)

unfoldable pub response_type_to_class_detail : Status → ℕ × ℕ
response_type_to_class_detail created = (2, 1)
response_type_to_class_detail deleted = (2, 2)
response_type_to_class_detail valid = (2, 3)
response_type_to_class_detail changed = (2, 4)
response_type_to_class_detail content = (2, 5)
response_type_to_class_detail continue = (5, 0)
response_type_to_class_detail bad_request = (4, 0)
response_type_to_class_detail unauthorized = (4, 1)
response_type_to_class_detail bad_option = (4, 2)
response_type_to_class_detail forbidden = (4, 3)
response_type_to_class_detail not_found = (4, 4)
response_type_to_class_detail method_not_allowed = (4, 5)
response_type_to_class_detail not_acceptable = (4, 6)
response_type_to_class_detail precondition_failed = (4, 12)
response_type_to_class_detail request_entity_too_large = (4, 13)
response_type_to_class_detail unsupported_content_format = (4, 15)
response_type_to_class_detail internal_server_error = (5, 0)
response_type_to_class_detail not_implemented = (5, 1)
response_type_to_class_detail bad_gateway = (5, 2)
response_type_to_class_detail service_unavailable = (5, 3)
response_type_to_class_detail gateway_timeout = (5, 4)
response_type_to_class_detail proxying_not_supported = (5, 5)
response_type_to_class_detail other_status = (5, 0)

-- The result of a status: success in class 2.
abbrev pub class_result : ℕ × ℕ → LwM2mResult
class_result (class, detail) =
    if class == 2 then success (coap_response class detail) else failure (coap_error class detail)

unfoldable pub coap_response_to_result : Packet → LwM2mResult
unfolding response_type_to_class_detail
coap_response_to_result p = elim p.code [
  | response status ↦ class_result (response_type_to_class_detail status)
  | _ ↦ failure (coap_error 5 0)
]

abbrev pub senml_cbor : ℕ
senml_cbor = 112

-- `to_be_bytes` of a u16.
abbrev pub be_bytes : ℕ → Bytes
be_bytes n = (n / 256 % 256) ∷ (n % 256) ∷ []

unfoldable pub encode_content_format : ℕ → Bytes
encode_content_format cf = if leb cf 255 then cf ∷ [] else be_bytes cf

unfoldable pub sgtin_from_ep : Bytes → Bytes
unfolding after_last
sgtin_from_ep ep = elim (after_last b':' ep) [ none ↦ ep | some text ↦ text ]
