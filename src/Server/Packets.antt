-- ===== src/Server/Packets.antt =====
-- src/lwm2m/server.rs: what a packet that was decoded sets off.
use smart_garden_gateway_lwm.Prelude.{
  ℕ, ◌+◌, Bool, true, false, Option, none, some, List, [], ◌∷◌, ◌++◌, Bytes, Outcome, ok, ◌>>=◌,
}
use smart_garden_gateway_lwm.Json.{Json}
use smart_garden_gateway_lwm.Model.{Instant, SocketAddr}
use smart_garden_gateway_lwm.Coap.{
  Packet, MessageType, confirmable, non_confirmable, acknowledgement, reset, MessageClass, request,
  post, delete, not_found, changed,
}
use smart_garden_gateway_lwm.Registry.{RegistryInner}
use smart_garden_gateway_lwm.Registry.Contact.{touch}
use smart_garden_gateway_lwm.Ipso.{IpsoModel}
use smart_garden_gateway_lwm.Senml.{Cbor}
use smart_garden_gateway_lwm.Senml.Reports.{ReportEffect, handle_dp}
use smart_garden_gateway_lwm.Server.Requests.{
  Effect, send_encrypted, Route, to_bootstrap, to_registration, to_update, to_data, unknown,
  post_route, response_packet, handle_update, handle_delete,
}
use smart_garden_gateway_lwm.Server.Registering.{handle_registration}
use smart_garden_gateway_lwm.Server.Inclusion.{InclusionEffect, handle_bootstrap}
use smart_garden_gateway_lwm.Server.Acks.{ServerState, Fired, handle_ack, handle_reset}

-- The functions that the handlers take: decoding of texts, the sending of a packet, the check of a
-- certificate, the crates', the configured address, the object model, and the clocks.
pub record ServerEnv : Type 0 where
  pub lossy : Bytes → Bytes
  pub sends : Packet → Bool
  pub is_utf8 : Bytes → Bool
  pub accepts : Bytes → Bytes → Bool
  pub decode_cbor : Bytes → Option Cbor
  pub encode_base64 : Bytes → Bytes
  pub int_as_float : Json → Json
  pub server_uri : Option Bytes
  pub ipso : IpsoModel
  pub now : Instant
  pub now_unix : ℕ

-- `ServerCtx`, the counter of internal operations, and the identity of the next channel.
pub record PacketState : Type 0 where
  pub server : ServerState
  pub op_id : ℕ
  pub next_channel : ℕ

pub data PacketEffect : Type 0 where
  connection_status : Bytes → PacketEffect
  requests : List Effect → PacketEffect
  inclusion : List InclusionEffect → PacketEffect
  report : List ReportEffect → PacketEffect
  fired : Fired → PacketEffect

abbrev pub Handled : Type 0
Handled = List PacketEffect × PacketState

abbrev pub with_registry : PacketState → RegistryInner → PacketState
with_registry s r = record s { server = record s.server { registry = r } }

-- A report, if the response to it can be sent.
unfoldable pub handle_data : ServerEnv → Packet → SocketAddr → PacketState → Outcome Handled
unfolding handle_dp response_packet
handle_data env p addr s = elim (env.sends (response_packet p changed none)) [
  | false ↦ ok ([], s)
  | true ↦
      handle_dp env.decode_cbor env.encode_base64 env.int_as_float env.now_unix env.ipso p addr
        s.server.registry
      >>= λ done. ok (report done.0 ∷ [], with_registry s done.1)
]

-- The handler that a POST goes to.
unfoldable pub handle_route :
    ServerEnv → Route → Packet → SocketAddr → PacketState → Outcome Handled
unfolding handle_bootstrap handle_registration handle_update handle_data response_packet
handle_route env to_bootstrap p addr s =
    let (effects, b) =
      handle_bootstrap env.lossy env.sends env.server_uri p addr s.server.bootstrap env.now in
    ok (inclusion effects ∷ [], record s { server = record s.server { bootstrap = b } })
handle_route env to_registration p addr s =
    handle_registration env.lossy env.sends env.is_utf8 p addr s.server.registry s.server.bootstrap
      env.now env.now_unix s.op_id s.next_channel
    >>= λ done. ok (
      requests done.0 ∷ [],
      record (with_registry s done.1.0) { op_id = done.1.1; next_channel = s.next_channel + 1 },
    )
handle_route env to_update p addr s =
    handle_update env.lossy env.sends p addr s.server.registry env.now >>= λ done.
    ok (requests done.0 ∷ [], with_registry s done.1)
handle_route env to_data p addr s = handle_data env p addr s
handle_route env unknown p addr s =
    let answer = response_packet p not_found none in
    ok (
      elim (env.sends answer) [
        | true ↦ requests (send_encrypted answer addr ∷ []) ∷ []
        | false ↦ []
      ],
      s,
    )

unfoldable pub handle_post : ServerEnv → Packet → SocketAddr → PacketState → Outcome Handled
unfolding post_route handle_route
handle_post env p addr s = handle_route env (post_route env.lossy env.sends p) p addr s

-- A request by its method.
unfoldable pub handle_method :
    ServerEnv → MessageClass → Packet → SocketAddr → PacketState → Outcome Handled
unfolding handle_post handle_delete
handle_method env (request post) p addr s = handle_post env p addr s
handle_method env (request delete) p addr s =
    let (effects, r) =
      handle_delete env.lossy env.sends p addr s.server.registry env.now env.now_unix in
    ok (requests effects ∷ [], with_registry s r)
handle_method env other p addr s = ok ([], s)

abbrev answered : PacketState → Fired × ServerState → Handled
answered s (f, server) = (fired f ∷ [], record s { server = server })

-- The message by its type.
unfoldable pub handle_message :
    ServerEnv → MessageType → Packet → SocketAddr → PacketState → Outcome Handled
unfolding handle_method handle_ack handle_reset
handle_message env confirmable p addr s = handle_method env p.code p addr s
handle_message env non_confirmable p addr s = handle_method env p.code p addr s
handle_message env acknowledgement p addr s =
    ok (answered s (handle_ack env.accepts p addr s.server))
handle_message env reset p addr s = ok (answered s (handle_reset p addr s.server))

abbrev online_event : Option Bytes → List PacketEffect
online_event none = []
online_event (some endpoint) = connection_status endpoint ∷ []

-- `handle_packet`, on the packet that the crate coap_lite decodes: the device is touched first.
unfoldable pub handle_packet :
    ServerEnv → Option Packet → SocketAddr → PacketState → Outcome Handled
unfolding touch handle_message
handle_packet env none addr s = ok ([], s)
handle_packet env (some p) addr s = touch s.server.registry addr env.now >>= λ touched.
    handle_message env p.kind p addr (with_registry s touched.1) >>= λ handled.
    ok (online_event touched.0 ++ handled.0, handled.1)

-- What came in, as the crate decodes it, with its sender and what the handler takes.
pub record Received : Type 0 where
  pub env : ServerEnv
  pub packet : Option Packet
  pub addr : SocketAddr

-- The loop that receives: the packets one after the other, with no other task in between.
unfoldable pub handle_packets : List Received → PacketState → Outcome PacketState
unfolding handle_packet
handle_packets [] s = ok s
handle_packets (x ∷ xs) s =
    handle_packet x.env x.packet x.addr s >>= λ handled. handle_packets xs handled.1
