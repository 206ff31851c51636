-- ===== src/Ipc/Socket.antt =====
-- src/ipc/command.rs: which handler a request goes to, and the lines of the socket.
use smart_garden_gateway_lwm.Prelude.{
  ℕ, ◌-◌, ◌^◌, Bool, true, false, not, ◌&&◌, Option, none, some, List, [], ◌∷◌, ◌++◌, Bytes, bytes,
  if◌then◌else◌, length, Outcome, ok, ◌>>=◌,
}
use smart_garden_gateway_lwm.Text.{parse_uint}
use smart_garden_gateway_lwm.Json.{
  Json, Items, Fields, bool, uint, text, object, nil, cons, done, field,
}
use smart_garden_gateway_lwm.Json.Merge.{put}
use smart_garden_gateway_lwm.Registry.Queries.{device_state_by_endpoint}
use smart_garden_gateway_lwm.Bootstrap.{BootstrapInner}
use smart_garden_gateway_lwm.Bootstrap.Inclusion.{approve_inclusion, included_list}
use smart_garden_gateway_lwm.Bootstrap.Der.{slice}
use smart_garden_gateway_lwm.Ipc.{IpcState, Env, IpcEffect, Handled, success_only}
use smart_garden_gateway_lwm.Ipc.Values.{same_text, index, str_or_empty, starts_with, ends_with}
use smart_garden_gateway_lwm.Ipc.Requests.{fails, handle_execute_path, handle_write_path}

-- The entry of a device in the response to a read, with its connection at hand or not.
abbrev connection_status : Env → Bool → Json
connection_status env online = object (
    field (bytes "_urn") (text (bytes "urn:oma:lwm2m:x:28171")) (
      field (bytes "0")
        (object (
          field (bytes "online")
            (object
              (field (bytes "vb") (bool online) (field (bytes "ts") (uint env.now_unix) done)))
            done))
        done))

unfoldable pub with_connection : Env → Json × Option Bool → Json
with_connection env (object t, some online) =
    object (put t (bytes "connection_status") (connection_status env online))
with_connection env (state, online) = state

abbrev state_or_empty : Option (Json × Option Bool) → Json × Option Bool
state_or_empty none = (object done, none)
state_or_empty (some found) = found

unfoldable pub read_devices : Env → IpcState → List Bytes → Fields → Outcome Fields
unfolding device_state_by_endpoint with_connection
read_devices env s [] payload = ok payload
read_devices env s (ep ∷ endpoints) payload = device_state_by_endpoint s.registry ep >>= λ found.
    read_devices env s endpoints (put payload ep (with_connection env (state_or_empty found)))

abbrev read_response : IpcState → Fields → Outcome Handled
read_response s payload = ok (
  object (field (bytes "payload") (object payload) (field (bytes "success") (bool true) done)),
  (s, []),
)

unfoldable pub handle_read : Env → Bytes → IpcState → Outcome Handled
unfolding read_devices included_list same_text
handle_read env path s =
    if same_text path (bytes "devices")
    then (read_devices env s (included_list s.bootstrap) done >>= read_response s)
    else ok (fails s)

abbrev pub include_prefix : Bytes
include_prefix = bytes "includable_device/"

abbrev pub include_suffix : Bytes
include_suffix = bytes "/include"

-- The approval of the device with an identifier, if one has it.
abbrev pub approved : IpcState → Option Bytes × BootstrapInner → Handled
approved s (none, b) = fails (record s { bootstrap = b })
approved s (some endpoint, b) = (success_only true, (record s { bootstrap = b }, []))

unfoldable pub include_id : IpcState → Option ℕ → Handled
unfolding approve_inclusion
include_id s none = fails s
include_id s (some id) = approved s (approve_inclusion s.bootstrap id)

-- `&path["includable_device/".len()..path.len() - "/include".len()]`, parsed.
unfoldable pub handle_include : Bytes → IpcState → Outcome Handled
unfolding slice include_id parse_uint
handle_include path s =
    slice path (length include_prefix) (length path - length include_suffix) >>= λ middle.
    ok (include_id s (parse_uint (2 ^ 32) middle))

unfoldable pub is_include : Bytes → Bool
unfolding starts_with ends_with
is_include path = starts_with path include_prefix && ends_with path include_suffix

abbrev is_empty : Bytes → Bool
is_empty [] = true
is_empty (b ∷ t) = false

-- `handle_request`, with the fields of the request at hand. The arms stand in the source's order.
unfoldable pub route_request : Env → Bytes → Bytes → Bytes → Json → IpcState → Outcome Handled
unfolding handle_read is_include handle_include handle_execute_path handle_write_path same_text
route_request env op path device payload s =
    if same_text op (bytes "read")
    then handle_read env path s
    else if same_text op (bytes "execute") && is_include path
    then handle_include path s
    else if same_text op (bytes "execute") && not (is_empty path)
    then handle_execute_path env path device payload s
    else if same_text op (bytes "write") && not (is_empty path)
    then handle_write_path env path device payload s
    else ok (success_only true, (s, []))

unfoldable pub handle_request : Env → Json → IpcState → Outcome Handled
unfolding route_request
handle_request env req s =
    let entity = index req (bytes "entity") in
    route_request env (str_or_empty (index req (bytes "op")))
      (str_or_empty (index entity (bytes "path"))) (str_or_empty (index entity (bytes "device")))
      (index req (bytes "payload")) s

-- The requests of a line, one after another: their responses, and all effects in order.
abbrev pub Responses : Type 0
Responses = Items × (IpcState × List IpcEffect)

unfoldable pub handle_requests : Env → Items → IpcState → Outcome Responses
unfolding handle_request
handle_requests env nil s = ok (nil, (s, []))
handle_requests env (cons req requests) s = do
  (response, (s', effects)) ← handle_request env req s
  (responses, (s'', later)) ← handle_requests env requests s'
  ok (cons response responses, (s'', effects ++ later))

-- `dispatch`, on the line as serde_json reads it: no array of values is one failure.
unfoldable pub dispatch_line : Env → Option Items → IpcState → Outcome Responses
unfolding handle_requests
dispatch_line env none s = ok (cons (success_only false) nil, (s, []))
dispatch_line env (some requests) s = handle_requests env requests s
