-- ===== src/Ipc/Events.antt =====
-- src/ipc/event.rs: the events that are sent to the clients of the event socket.
use smart_garden_gateway_lwm.Prelude.{ℕ, ◌+◌, ◌%◌, ◌^◌, Bool, List, [], ◌∷◌, ◌++◌, Bytes, bytes}
use smart_garden_gateway_lwm.Text.{decimal}
use smart_garden_gateway_lwm.Json.{
  Json, Fields, bool, uint, text, array, object, nil, cons, done, field,
}

-- `EventSender`: the next number, and what went out on the broadcast channel, the last first.
pub record EventSender : Type 0 where
  pub seq : ℕ
  pub sent : List Json

pub data Event : Type 0 where
  includable : ℕ → Bytes → Bool → Bool → Event
  device_data : Bytes → Json → Event
  connection : Bytes → Bool → Event
  device_deleted : Bytes → Event
  fota_result : Bytes → ℕ → Bool → Event

abbrev pub of_list : List (Bytes × Json) → Fields
of_list [] = done
of_list ((k, v) ∷ l) = field k v (of_list l)

abbrev stamped : Bytes → Json → ℕ → Json
stamped key v ts = object (of_list ((key, v) ∷ (bytes "ts", uint ts) ∷ []))

abbrev entity : Bytes → Bytes → Bytes → Json
entity key name path = object (of_list ((key, text name) ∷ (bytes "path", text path) ∷ []))

abbrev metadata : ℕ → Json
metadata seq =
    object
      (of_list ((bytes "source", text (bytes "lwm2mserver")) ∷ (bytes "sequence", uint seq) ∷ []))

abbrev update : Json → Json → ℕ → Json
update who payload seq = array (
    cons
      (object (
        of_list (
          (bytes "op", text (bytes "update"))
          ∷ (bytes "entity", who)
          ∷ (bytes "payload", payload)
          ∷ (bytes "metadata", metadata seq)
          ∷ [])))
      nil)

-- The documents of `send_includable`, `send_device_data`, `send_connection_status`,
-- `send_device_deleted` and `send_fota_result`.
unfoldable pub includable_document : ℕ → Bytes → Bool → Bool → ℕ → ℕ → Json
unfolding decimal
includable_document id identifier started completed ts seq =
    update
      (entity (bytes "service") (bytes "lwm2mserver") (bytes "includable_device/" ++ decimal id))
      (object (
        of_list (
          (bytes "identifier", stamped (bytes "vs") (text identifier) ts)
          ∷ (bytes "protocol", stamped (bytes "vi") (uint 1) ts)
          ∷ (bytes "inclusion_started", stamped (bytes "vb") (bool started) ts)
          ∷ (bytes "inclusion_completed", stamped (bytes "vb") (bool completed) ts)
          ∷ (bytes "inclusion_error", stamped (bytes "vi") (uint 0) ts)
          ∷ (bytes "_urn", text (bytes "urn:oma:lwm2m:x:28170:0.1"))
          ∷ [])))
      seq

unfoldable pub device_document : Bytes → Json → ℕ → Json
device_document endpoint payload seq = update (entity (bytes "device") endpoint []) payload seq

unfoldable pub connection_document : Bytes → Bool → ℕ → ℕ → Json
connection_document endpoint online ts seq =
    update (entity (bytes "device") endpoint (bytes "connection_status"))
      (object (
        of_list (
          (bytes "_urn", text (bytes "urn:oma:lwm2m:x:28171"))
          ∷ (
            bytes "0",
            object (of_list ((bytes "online", stamped (bytes "vb") (bool online) ts) ∷ [])),
          )
          ∷ [])))
      seq

unfoldable pub deleted_document : Bytes → ℕ → Json
deleted_document endpoint seq = array (
    cons
      (object (
        of_list (
          (bytes "op", text (bytes "delete"))
          ∷ (bytes "entity", entity (bytes "device") endpoint [])
          ∷ (bytes "metadata", metadata seq)
          ∷ [])))
      nil)

unfoldable pub fota_document : Bytes → ℕ → Bool → ℕ → ℕ → Json
fota_document endpoint operation_id success ts seq =
    update (entity (bytes "device") endpoint (bytes "firmware_update/0/package"))
      (object (
        of_list (
          (bytes "success", bool success)
          ∷ (bytes "operation_id", uint operation_id)
          ∷ (bytes "ts", uint ts)
          ∷ [])))
      seq

unfoldable pub document : Event → ℕ → ℕ → Json
unfolding includable_document device_document connection_document deleted_document fota_document
document (includable id identifier started completed) ts seq =
    includable_document id identifier started completed ts seq
document (device_data endpoint payload) ts seq = device_document endpoint payload seq
document (connection endpoint online) ts seq = connection_document endpoint online ts seq
document (device_deleted endpoint) ts seq = deleted_document endpoint seq
document (fota_result endpoint operation_id success) ts seq =
    fota_document endpoint operation_id success ts seq

-- Each send takes the next number, which wraps around on u32, and broadcasts its document.
unfoldable pub send : ℕ → EventSender → Event → EventSender
unfolding document
send ts sender event = record {
  seq = (sender.seq + 1) % 2 ^ 32;
  sent = document event ts sender.seq ∷ sender.sent;
}
