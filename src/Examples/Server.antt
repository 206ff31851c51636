-- ===== src/Examples/Server.antt =====
-- The CoAP server (src/lwm2m/server.rs) at concrete packets.
use smart_garden_gateway_lwm.Prelude.{
  ◌≡◌, refl, false, true, none, some, [], ◌∷◌, ◌++◌, bytes, bytes_key, nat_key, arith, panic,
}
use smart_garden_gateway_lwm.Text.Trim.{trim}
use smart_garden_gateway_lwm.Dict.{get, insert, empty}
use smart_garden_gateway_lwm.Dict.Laws.{get-insert, get-empty}
use smart_garden_gateway_lwm.Model.{
  SocketAddr, v6, DeviceId, addr_key, Token, ping_path, read, PendingOperation, Device,
  Registration, new_device, failure, coap_error,
}
use smart_garden_gateway_lwm.Coap.{
  Packet, acknowledgement, response, content, coap_response_to_result,
}
use smart_garden_gateway_lwm.Client.{as_uri_path}
use smart_garden_gateway_lwm.Coap.{confirmable, request, post, uri_path, uri_query, changed}
use smart_garden_gateway_lwm.Server.Requests.{response_packet, lifetime_param, handle_update}
use smart_garden_gateway_lwm.Server.Registration.{IsUpdated, handle_update-IsUpdated}
use smart_garden_gateway_lwm.Bootstrap
use smart_garden_gateway_lwm.Bootstrap.{is_pending}
use smart_garden_gateway_lwm.Server.{parse_query, parse_lwm2m_path, parse_link_format, token_array}
use smart_garden_gateway_lwm.Server.Queries.{
  get-parse_query, join_pairs, last_value, parse_lwm2m_path-as_uri_path,
}
use smart_garden_gateway_lwm.Server.Links.{parse_link_format-panic}
use smart_garden_gateway_lwm.Server.Acks.{ServerState, result, nothing, handle_ack, handle_reset}
use smart_garden_gateway_lwm.Server.Replies.{IsAwaited, handle_ack-once, handle_reset-once}

parse_lwm2m_path_example : parse_lwm2m_path (b'/' ∷ as_uri_path ping_path) ≡ some (1, 1, 8, false)
parse_lwm2m_path_example =
    parse_lwm2m_path-as_uri_path ping_path (omega arith) (omega arith) (omega arith)

get-parse_query_example :
    get
      (parse_query (join_pairs (bytes "ep", bytes "30") ((bytes "lt", bytes "60") ∷ [])))
      (bytes "lt")
    ≡ last_value (bytes "lt") ((bytes "ep", bytes "30") ∷ (bytes "lt", bytes "60") ∷ []) none
get-parse_query_example =
    get-parse_query (bytes "lt") (bytes "ep", bytes "30") ((bytes "lt", bytes "60") ∷ [])
      (
        (omega arith, (omega arith, tt)),
        (omega arith, (omega arith, tt)),
        (omega arith, (omega arith, tt)),
      )
      (
        (
          (omega arith, (omega arith, tt)),
          (omega arith, (omega arith, tt)),
          (omega arith, (omega arith, tt)),
        ),
        tt,
      )

parse_link_format_example : parse_link_format (bytes "</3/0>" ++ b',' ∷ b'>' ∷ []) ≡ panic
parse_link_format_example = parse_link_format-panic (bytes "</3/0>") []

abbrev home : SocketAddr
home = v6 1 5683 0 2

abbrev token : Token
token = 7 ∷ 0 ∷ 0 ∷ 0 ∷ 0 ∷ 0 ∷ 0 ∷ 0 ∷ []

abbrev ack : Packet
ack = record {
  kind = acknowledgement;
  code = response content;
  message_id = 1;
  token = token;
  options = [];
  payload = [];
}

abbrev ping : PendingOperation
ping = record {
  id = 7;
  command = read ping_path;
  response_tx = 5;
  first_ack_tx = none;
  created_at = 0;
  attempts = 1;
}

abbrev pump : Registration
pump = record {
  endpoint = bytes "3034F8319C00754000000097";
  addr = home;
  lifetime = 86400;
  objects = bytes "3/0" ∷ [];
  object_versions = empty;
  lwm2m_version = bytes "1.1";
  binding_mode = bytes "U";
}

abbrev device : Device
device = record (new_device 1 pump 0) { in_flight = insert empty token ping }

abbrev state : ServerState
state = record {
  registry = record {
    by_id = insert empty 1 device;
    by_endpoint = insert empty pump.endpoint 1;
    by_addr = insert empty home 1;
    next_id = 2;
  };
  bootstrap = Bootstrap.new 0;
  block_acks = empty;
}

token_example : token_array token ≡ token
unfolding token_array
token_example = refl

state-IsAwaited : IsAwaited state home (token_array ack.token) ping
unfolding token_array Bootstrap.new is_pending get empty
state-IsAwaited = record {
  id = 1;
  device = device;
  at = ground (arith, get-insert {V = DeviceId} empty home home 1);
  found = ground (arith, get-insert {K = DeviceId} empty 1 1 device);
  in_flight = ground (arith, get-insert empty token token ping);
  no_write = get-empty token;
  no_session = refl;
  no_block = get-empty token;
}

handle_ack_example :
    ((handle_ack (λ p e. true) ack home state).0 ≡ result (5, coap_response_to_result ack))
    × ((handle_ack (λ p e. true) ack home (handle_ack (λ p e. true) ack home state).1).0 ≡ nothing)
handle_ack_example = handle_ack-once (λ p e. true) ack ack home state ping state-IsAwaited refl

handle_reset_example :
    ((handle_reset ack home state).0 ≡ result (5, failure (coap_error 5 0)))
    × ((handle_ack (λ p e. true) ack home (handle_reset ack home state).1).0 ≡ nothing)
handle_reset_example = handle_reset-once (λ p e. true) ack ack home state ping state-IsAwaited refl

abbrev update : Packet
update = record {
  kind = confirmable;
  code = request post;
  message_id = 9;
  token = [];
  options = (uri_path, bytes "rd") ∷ (uri_path, bytes "1") ∷ (uri_query, bytes "lt=60") ∷ [];
  payload = [];
}

handle_update_example :
    IsUpdated home 1 device
      (response_packet update changed none)
      (lifetime_param (λ text. text) (λ p. true) update)
      5
      (handle_update (λ text. text) (λ p. true) update home state.registry 5)
handle_update_example =
    handle_update-IsUpdated (λ text. text) (λ p. true) update home state.registry 1 device 5
      (ground (arith, get-insert {V = DeviceId} empty home home 1))
      (ground (arith, get-insert {K = DeviceId} empty 1 1 device)) refl

-- A no-break space in front and an ideographic space behind are white space.
unicode_trimmed : trim (194 ∷ 160 ∷ 97 ∷ 227 ∷ 128 ∷ 128 ∷ []) ≡ 97 ∷ []
unfolding trim
unicode_trimmed = refl
