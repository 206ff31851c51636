-- ===== src/Server/Acks.antt =====
-- src/lwm2m/server.rs: what an acknowledgement and a reset of a device complete.
use smart_garden_gateway_lwm.Prelude.{Bool, true, false, Option, none, some, [], Bytes, bytes_key}
use smart_garden_gateway_lwm.Dict.{get, remove}
use smart_garden_gateway_lwm.Model.{
  SocketAddr, Sender, PendingOperation, LwM2mResult, failure, coap_error,
}
use smart_garden_gateway_lwm.Coap.{Packet, coap_response_to_result}
use smart_garden_gateway_lwm.Registry.{RegistryInner}
use smart_garden_gateway_lwm.Registry.Operations.{complete_in_flight}
use smart_garden_gateway_lwm.Registry.Sweep.{Reply}
use smart_garden_gateway_lwm.Bootstrap.{
  BootstrapInner, BootstrapSession, complete, is_pending, complete_write_ack,
  remove_from_cert_cache,
}
use smart_garden_gateway_lwm.Client.BlockWrite.{BlockAcks}
use smart_garden_gateway_lwm.Server.{token_array}

-- What the handlers of `ServerCtx` share.
pub record ServerState : Type 0 where
  pub registry : RegistryInner
  pub bootstrap : BootstrapInner
  pub block_acks : BlockAcks

-- What was sent to a waiting task: nothing, the result of an operation, whether a bootstrap write was
-- accepted, or the packet for a block-wise write.
pub data Fired : Type 0 where
  nothing : Fired
  result : Reply → Fired
  written : Sender × Bool → Fired
  handed_over : Sender → Packet → Fired

abbrev pub payload_of : BootstrapSession → Bytes
payload_of session = elim session.pubkey_payload [ none ↦ [] | some payload ↦ payload ]

abbrev pub fire_result : LwM2mResult → Option PendingOperation → Fired
fire_result r none = nothing
fire_result r (some op) = result (op.response_tx, r)

-- The certificate of a session that was completed is cached only if it is accepted.
-- `accepts` stands for parse_device_pubkey and validate_device_certificate on payload and endpoint.
abbrev pub check_session :
    (Bytes → Bytes → Bool) → Option BootstrapSession × BootstrapInner → BootstrapInner
check_session accepts (none, b) = b
check_session accepts (some session, b) = elim (accepts (payload_of session) session.endpoint) [
  | true ↦ b
  | false ↦ remove_from_cert_cache b session.endpoint
]

unfoldable pub handle_ack :
    (Bytes → Bytes → Bool) → Packet → SocketAddr → ServerState → Fired × ServerState
unfolding token_array complete_write_ack is_pending complete remove_from_cert_cache
    complete_in_flight coap_response_to_result
handle_ack accepts packet addr s =
    let token = token_array packet.token in
    let ((done, fired), b) = complete_write_ack s.bootstrap token true in
    elim fired [
      | some ack ↦ (written ack, record s { bootstrap = b })
      | none ↦ elim (is_pending s.bootstrap token) [
        | true ↦ (
          nothing,
          record s {
            bootstrap = check_session accepts (complete s.bootstrap token packet.payload);
          },
        )
        | false ↦ elim (get s.block_acks token) [
          | some tx ↦ (handed_over tx packet, record s { block_acks = remove s.block_acks token })
          | none ↦
              let (op, r) = complete_in_flight s.registry addr token in
              (fire_result (coap_response_to_result packet) op, record s { registry = r })
        ]
      ]
    ]

-- A sender for a block that is waiting is dropped, which its task takes as an error.
unfoldable pub handle_reset : Packet → SocketAddr → ServerState → Fired × ServerState
unfolding token_array complete_write_ack is_pending complete_in_flight
handle_reset packet addr s =
    let token = token_array packet.token in
    elim (is_pending s.bootstrap token) [
      | true ↦ (nothing, s)
      | false ↦
          let ((done, fired), b) = complete_write_ack s.bootstrap token false in
          elim fired [
            | some ack ↦ (written ack, record s { bootstrap = b })
            | none ↦
                let (op, r) = complete_in_flight s.registry addr token in
                (
                  fire_result (failure (coap_error 5 0)) op,
                  record s { registry = r; block_acks = remove s.block_acks token },
                )
          ]
    ]
