-- ===== src/Registry/Queries.antt =====
-- src/registry.rs: what is known of a device, and its accumulated state.
use smart_garden_gateway_lwm.Prelude.{
  ℕ, Bool, Option, none, some, Bytes, bytes_key, nat_key, Outcome, ok, expect, ◌>>=◌,
}
use smart_garden_gateway_lwm.Dict.{Dict, get}
use smart_garden_gateway_lwm.Json.{Json}
use smart_garden_gateway_lwm.Json.Merge.{json_merge}
use smart_garden_gateway_lwm.Model.{DeviceId, SocketAddr, addr_key}
use smart_garden_gateway_lwm.Registry.{RegistryInner, put_device}

unfoldable pub endpoint_by_addr : RegistryInner → SocketAddr → Outcome (Option Bytes)
endpoint_by_addr r addr = elim (get r.by_addr addr) [
  | none ↦ ok none
  | some id ↦ do d ← expect (get r.by_id id); ok (some d.endpoint)
]

unfoldable pub object_versions_by_addr :
    RegistryInner → SocketAddr → Outcome (Option (Dict ℕ Bytes))
object_versions_by_addr r addr = elim (get r.by_addr addr) [
  | none ↦ ok none
  | some id ↦ do d ← expect (get r.by_id id); ok (some d.object_versions)
]

unfoldable pub addr_and_id_by_endpoint :
    RegistryInner → Bytes → Outcome (Option (SocketAddr × DeviceId × Dict ℕ Bytes))
addr_and_id_by_endpoint r endpoint = elim (get r.by_endpoint endpoint) [
  | none ↦ ok none
  | some id ↦ do d ← expect (get r.by_id id); ok (some (d.addr, id, d.object_versions))
]

unfoldable pub device_state_by_endpoint :
    RegistryInner → Bytes → Outcome (Option (Json × Option Bool))
device_state_by_endpoint r endpoint = elim (get r.by_endpoint endpoint) [
  | none ↦ ok none
  | some id ↦ do d ← expect (get r.by_id id); ok (some (d.state, d.online))
]

unfoldable pub merge_device_state_by_addr :
    RegistryInner → SocketAddr → Json → Outcome (Json × RegistryInner)
merge_device_state_by_addr r addr new_state = elim (get r.by_addr addr) [
  | none ↦ ok (new_state, r)
  | some id ↦ do
    d ← expect (get r.by_id id)
    let merged = json_merge d.state new_state
    ok (merged, put_device r id (record d { state = merged }))
]

unfoldable pub restore_device_state : RegistryInner → Bytes → Json → RegistryInner
restore_device_state r endpoint state = elim (get r.by_endpoint endpoint) [
  | none ↦ r
  | some id ↦ elim (get r.by_id id) [
    | none ↦ r
    | some d ↦ put_device r id (record d { state = state })
  ]
]
