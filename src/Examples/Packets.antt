-- ===== src/Examples/Packets.antt =====
-- A registration that comes in at a server that has just started (src/lwm2m/server.rs).
use smart_garden_gateway_lwm.Prelude.{true, none, some, List, [], ◌∷◌, bytes, bytes_key}
use smart_garden_gateway_lwm.Dict.{empty}
use smart_garden_gateway_lwm.Model.{SocketAddr, v6}
use smart_garden_gateway_lwm.Coap.{Packet, confirmable, request, post, delete, uri_path, uri_query}
use smart_garden_gateway_lwm.Registry
use smart_garden_gateway_lwm.Bootstrap
use smart_garden_gateway_lwm.Server.Packets.{ServerEnv, PacketState, Received}

abbrev home : SocketAddr
home = v6 1 5683 0 2

abbrev env : ServerEnv
env = record {
  lossy = λ text. text;
  sends = λ answer. true;
  is_utf8 = λ text. true;
  accepts = λ payload endpoint. true;
  decode_cbor = λ payload. none;
  encode_base64 = λ plain. plain;
  int_as_float = λ v. v;
  server_uri = none;
  ipso = record { objects = empty };
  now = 5;
  now_unix = 5;
}

abbrev registration : Packet
registration = record {
  kind = confirmable;
  code = request post;
  message_id = 9;
  token = [];
  options = (uri_path, bytes "rd") ∷ (uri_query, bytes "ep=3034F8319C00754000000097") ∷ [];
  payload = bytes "</3/0>";
}

abbrev state : PacketState
state = record {
  server = record { registry = Registry.new; bootstrap = Bootstrap.new 0; block_acks = empty };
  op_id = 1;
  next_channel = 0;
}

abbrev packets : List Received
packets =
    record { env = env; packet = some registration; addr = home }
    ∷ record {
      env = env;
      packet = some (record registration { code = request delete });
      addr = home;
    }
    ∷ []
