-- ===== src/Examples/Ipc.antt =====
-- Requests on the IPC socket (src/ipc/command.rs) at concrete input.
use smart_garden_gateway_lwm.Prelude.{
  ◌≡◌, refl, ite, true, false, none, some, [], Bytes, bytes, bytes_key, nat_key, ℕ_discrete, ok,
  panic, arith,
}
use smart_garden_gateway_lwm.Dict.{empty, get, insert}
use smart_garden_gateway_lwm.Json.{Json, text, object, field, done}
use smart_garden_gateway_lwm.Json.Merge
use smart_garden_gateway_lwm.Registry
use smart_garden_gateway_lwm.Bootstrap
use smart_garden_gateway_lwm.Bootstrap.{BootstrapInner}
use smart_garden_gateway_lwm.Bootstrap.Inclusion.{
  ensure_includable_id, approve_inclusion, is_approved,
}
use smart_garden_gateway_lwm.Ipc.{IpcState, Env, dropped, success_only}
use smart_garden_gateway_lwm.Ipc.Values.{index}
use smart_garden_gateway_lwm.Ipc.Socket.{handle_request}
use smart_garden_gateway_lwm.Ipc.Inclusion.{
  include_path, handle_request-include, handle_request-panic,
}

abbrev env : Env
env = record {
  takes = λ op. true;
  answer = λ op. dropped;
  first_ack = λ op. true;
  meanwhile = λ op s. s;
  now = 0;
  now_unix = 0;
  base64_decode = some;
  float_text = λ v. none;
}

unfoldable state : IpcState
unfolding Registry.new Bootstrap.new ensure_includable_id
state = record {
  bootstrap = (ensure_includable_id (Bootstrap.new 0) (bytes "ab")).1;
  registry = Registry.new;
  ipso = record { objects = empty };
  next_op_id = 1;
  next_channel = 0;
  fota_locked = false;
}

abbrev request : Bytes → Json
request path = object (
    field (bytes "op") (text (bytes "execute"))
      (field (bytes "entity") (object (field (bytes "path") (text path) done)) done))

op_execute : (path : Bytes) → index (request path) (bytes "op") ≡ text (bytes "execute")
unfolding Merge.find bytes_key ℕ_discrete
op_execute path = refl

path_execute :
    (path : Bytes) → index (index (request path) (bytes "entity")) (bytes "path") ≡ text path
unfolding Merge.find bytes_key ℕ_discrete
path_execute path = refl

shown : get state.bootstrap.includable_by_id 1 ≡ some (bytes "ab")
unfolding state Bootstrap.new ensure_includable_id get insert empty bytes_key ℕ_discrete
shown = refl

handle_request-include_example :
    let b = (approve_inclusion state.bootstrap 1).1 in
    (handle_request env (request (include_path 1)) state
      ≡ ok (success_only true, (record state { bootstrap = b }, [])))
    × (is_approved b (bytes "cd")
        ≡ ite
            (bytes_key.dec (bytes "cd") (bytes "ab"))
            true
            (is_approved state.bootstrap (bytes "cd")))
handle_request-include_example =
    handle_request-include env (request (include_path 1)) state 1 (bytes "ab") (bytes "cd")
      (op_execute (include_path 1)) (path_execute (include_path 1)) (omega arith) shown

handle_request-panic_example :
    handle_request env (request (bytes "includable_device/include")) state ≡ panic
handle_request-panic_example =
    handle_request-panic env (request (bytes "includable_device/include")) state
      (op_execute (bytes "includable_device/include"))
      (path_execute (bytes "includable_device/include"))
