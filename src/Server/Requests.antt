-- ===== src/Server/Requests.antt =====
-- src/lwm2m/server.rs: the requests of devices: registration, update, deregistration.
use smart_garden_gateway_lwm.Prelude.{
  ℕ, ◌^◌, Bool, true, false, Option, none, some, List, [], ◌∷◌, ◌++◌, Bytes, bytes, bytes_key,
  Outcome, ok, ◌>>=◌,
}
use mathlib.Core.Option
use smart_garden_gateway_lwm.Prelude.Keys.{list_dec}
use smart_garden_gateway_lwm.Prelude.{ℕ_discrete, map}
use smart_garden_gateway_lwm.Dict.{get}
use smart_garden_gateway_lwm.Text.{split, trim_start_matches, parse_uint}
use smart_garden_gateway_lwm.Model.{Instant, SocketAddr, PendingOperation}
use smart_garden_gateway_lwm.Coap.{
  Packet, Status, acknowledgement, response, changed, deleted, get_option, uri_path, uri_query,
  sgtin_from_ep,
}
use smart_garden_gateway_lwm.Registry.{RegistryInner}
use smart_garden_gateway_lwm.Registry.Contact.{renew_registration}
use smart_garden_gateway_lwm.Registry.Operations.{drain_pending}
use smart_garden_gateway_lwm.Registry.Sweep.{Reply, remove_by_addr}
use smart_garden_gateway_lwm.Registry.Persisted.{DeviceSnapshot, snapshot}
use smart_garden_gateway_lwm.Server.{parse_query}

unfoldable pub make_response : Packet → Status → Packet
make_response request status = record {
  kind = acknowledgement;
  code = response status;
  message_id = request.message_id;
  token = request.token;
  options = [];
  payload = [];
}

-- The packet that make_response_bytes encodes.
unfoldable pub response_packet : Packet → Status → Option Bytes → Packet
unfolding make_response
response_packet request status none = make_response request status
response_packet request status (some body) = record (make_response request status) {
  payload = body;
}

-- The texts with the separator between them.
abbrev pub join : ℕ → List Bytes → Bytes
join c [] = []
join c (text ∷ []) = text
join c (text ∷ next ∷ texts) = text ++ (c ∷ join c (next ∷ texts))

-- What a handler does besides its change of the registry.
pub data Effect : Type 0 where
  send_encrypted : Packet → SocketAddr → Effect
  dispatch : SocketAddr → List PendingOperation → Effect
  fire : List Reply → Effect
  save_registry : List DeviceSnapshot → Effect
  remove_later : SocketAddr → Effect

abbrev pub dispatch_some : SocketAddr → List PendingOperation → List Effect
dispatch_some addr [] = []
dispatch_some addr (op ∷ ops) = dispatch addr (op ∷ ops) ∷ []

-- Which handler a POST goes to.
pub data Route : Type 0 where
  to_bootstrap to_registration to_update to_data unknown : Route

abbrev pub same_text : Bytes → Bytes → Bool
same_text a b = elim (list_dec ℕ_discrete a b) [ yes p ↦ true | no n ↦ false ]

abbrev pub route_of : List Bytes → Route
route_of (p ∷ []) = elim (same_text p (bytes "bs")) [
  | true ↦ to_bootstrap
  | false ↦ elim (same_text p (bytes "rd")) [
    | true ↦ to_registration
    | false ↦ elim (same_text p (bytes "dp")) [ true ↦ to_data | false ↦ unknown ]
  ]
]
route_of (p ∷ id ∷ []) = elim (same_text p (bytes "rd")) [ true ↦ to_update | false ↦ unknown ]
route_of parts = unknown

abbrev pub or_text : Option Bytes → Bytes → Bytes
or_text none default = default
or_text (some text) default = text

-- `lossy` is `String::from_utf8_lossy`; `sends` tells whether a packet is encoded and sent.
module _ (lossy : Bytes → Bytes) (sends : Packet → Bool) where
  unfoldable pub uri_path_text : Packet → Bytes
  uri_path_text p = join b'/' (map lossy (get_option uri_path p))

  unfoldable pub uri_query_text : Packet → Bytes
  uri_query_text p = join b'&' (map lossy (get_option uri_query p))

  unfoldable pub post_route : Packet → Route
  unfolding uri_path_text split trim_start_matches list_dec
  post_route p = route_of (split b'/' (trim_start_matches b'/' (uri_path_text p)))

  unfoldable pub param : Bytes → Packet → Option Bytes
  unfolding parse_query uri_query_text
  param name p = get (parse_query (uri_query_text p)) name

  -- `params.get("lt").and_then(|v| v.parse().ok())`
  unfoldable pub lifetime_param : Packet → Option ℕ
  unfolding parse_uint param
  lifetime_param p = Option.bind (param (bytes "lt") p) (parse_uint (2 ^ 32))

  -- When the answer cannot be sent the handler returns before anything else.
  unfoldable pub handle_update :
      Packet → SocketAddr → RegistryInner → Instant → Outcome (List Effect × RegistryInner)
  unfolding response_packet renew_registration drain_pending lifetime_param
  handle_update p addr r now =
      let answer = response_packet p changed none in
      elim (sends answer) [
        | false ↦ ok ([], r)
        | true ↦ do
          (ops, r') ← drain_pending (renew_registration r addr (lifetime_param p) now) addr
          ok (send_encrypted answer addr ∷ dispatch_some addr ops, r')
      ]

  unfoldable pub handle_delete :
      Packet → SocketAddr → RegistryInner → Instant → ℕ → List Effect × RegistryInner
  unfolding response_packet remove_by_addr snapshot
  handle_delete p addr r now now_unix =
      let answer = response_packet p deleted none in
      elim (sends answer) [
        | false ↦ ([], r)
        | true ↦
            let (removed, r') = remove_by_addr r addr in
            elim removed [
              | none ↦ (send_encrypted answer addr ∷ [], r')
              | some (endpoint, replies) ↦ (
                send_encrypted answer addr
                    ∷ fire replies
                    ∷ save_registry (snapshot r' now now_unix)
                    ∷ [],
                r',
              )
            ]
      ]

  -- The name that a request gives, or nothing.
  unfoldable pub requested_endpoint : Packet → Bytes
  unfolding param sgtin_from_ep
  requested_endpoint p = sgtin_from_ep (or_text (param (bytes "ep") p) [])
