-- ===== src/Senml/Reports.antt =====
-- src/lwm2m/server.rs: what a state report (POST /dp) of a device changes.
use smart_garden_gateway_lwm.Prelude.{
  ℕ, Option, none, some, List, [], ◌∷◌, Bytes, Outcome, ok, ◌>>=◌,
}
use smart_garden_gateway_lwm.Dict.{Dict, empty}
use smart_garden_gateway_lwm.Json.{Json}
use smart_garden_gateway_lwm.Model.{SocketAddr}
use smart_garden_gateway_lwm.Coap.{Packet, changed}
use smart_garden_gateway_lwm.Registry.{RegistryInner}
use smart_garden_gateway_lwm.Registry.Queries.{
  endpoint_by_addr, object_versions_by_addr, merge_device_state_by_addr,
}
use smart_garden_gateway_lwm.Ipso.{IpsoModel}
use smart_garden_gateway_lwm.Senml.{Cbor}
use smart_garden_gateway_lwm.Senml.Payload.{build_device_payload}
use smart_garden_gateway_lwm.Server.Requests.{response_packet}

-- The response, the event, and the state that is saved.
pub data ReportEffect : Type 0 where
  respond : Packet → SocketAddr → ReportEffect
  device_data : Bytes → Json → ReportEffect
  save_device_state : Bytes → Json → ReportEffect

abbrev pub Reported : Type 0
Reported = List ReportEffect × RegistryInner

unfoldable pub report_payload : SocketAddr → Bytes → RegistryInner → Option Json → Outcome Reported
unfolding merge_device_state_by_addr
report_payload addr endpoint r none = ok ([], r)
report_payload addr endpoint r (some payload) =
    merge_device_state_by_addr r addr payload >>= λ merged.
    ok (device_data endpoint payload ∷ save_device_state endpoint merged.0 ∷ [], merged.1)

abbrev versions_or_none : Option (Dict ℕ Bytes) → Dict ℕ Bytes
versions_or_none none = empty
versions_or_none (some versions) = versions

-- The crates' functions, the time, whether the response is sent, and the object model.
module _ (decode : Bytes → Option Cbor) (encode : Bytes → Bytes) (int_as_float : Json → Json)
    (ts : ℕ) (ipso : IpsoModel) where
  unfoldable pub report_from : Packet → SocketAddr → RegistryInner → Option Bytes → Outcome Reported
  unfolding build_device_payload report_payload object_versions_by_addr
  report_from packet addr r none = ok ([], r)
  report_from packet addr r (some endpoint) = object_versions_by_addr r addr >>= λ versions.
      report_payload addr endpoint r (
        build_device_payload encode int_as_float ts (decode packet.payload) ipso
          (versions_or_none versions))

  unfoldable pub report_body : Packet → Bytes → SocketAddr → RegistryInner → Outcome Reported
  unfolding report_from endpoint_by_addr
  report_body packet [] addr r = ok ([], r)
  report_body packet (b ∷ payload) addr r =
      endpoint_by_addr r addr >>= λ endpoint. report_from packet addr r endpoint

  -- `handle_dp`, where the response can be sent.
  unfoldable pub handle_dp : Packet → SocketAddr → RegistryInner → Outcome Reported
  unfolding report_body response_packet
  handle_dp packet addr r = report_body packet packet.payload addr r >>= λ done.
      ok (respond (response_packet packet changed none) addr ∷ done.0, done.1)
