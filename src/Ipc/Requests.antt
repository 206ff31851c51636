-- ===== src/Ipc/Requests.antt =====
-- src/ipc/command.rs: the requests of the IPC socket.
use mathlib.Core.Option
use smart_garden_gateway_lwm.Prelude.{
  ℕ, ◌+◌, ◌*◌, ◌%◌, ◌^◌, Bool, true, false, Option, none, some, List, [], ◌∷◌, ◌++◌, Bytes, bytes,
  bytes_key, nat_key, ◌==◌, if◌then◌else◌, Outcome, ok, ◌>>=◌,
}
use smart_garden_gateway_lwm.Dict.{Dict, get}
use smart_garden_gateway_lwm.Text.{splitn, parse_uint}
use smart_garden_gateway_lwm.Json.{Json, Fields, uint, text, array, nil, cons, done, field}
use smart_garden_gateway_lwm.Model.{
  SocketAddr, DeviceId, ResourcePath, LwM2mCommand, write, execute, PendingOperation, coap_response,
  success, factory_reset_path,
}
use smart_garden_gateway_lwm.Registry.Queries.{addr_and_id_by_endpoint}
use smart_garden_gateway_lwm.Registry.Sweep.{remove_by_addr}
use smart_garden_gateway_lwm.Registry.Persisted.{snapshot}
use smart_garden_gateway_lwm.Bootstrap.Inclusion.{unmark_included, included_list}
use smart_garden_gateway_lwm.Ipso.{object_id_by_name, resource_id_by_name}
use smart_garden_gateway_lwm.Ipc.{
  IpcState, Env, Answer, answered, elapsed_timeout, IpcEffect, dispatched, persist_exclusion,
  Handled, success_only, with_metadata, next_operation,
}
use smart_garden_gateway_lwm.Ipc.Values.{
  same_text, execute_args, encode_write_payload, coap_status_name,
}
use smart_garden_gateway_lwm.Ipc.Firmware.{handle_fota_write}

abbrev pub fails : IpcState → Handled
fails s = (success_only false, (s, []))

-- `ResolvedResource`
pub record ResolvedResource : Type 0 where
  pub addr : SocketAddr
  pub dev_id : DeviceId
  pub obj_id : ℕ
  pub inst_id : ℕ
  pub res_id : ℕ

-- The resource's identifier, at the version that the device registered.
unfoldable pub resolve_on :
    IpcState
    → ℕ
    → ℕ
    → Bytes
    → Option (SocketAddr × DeviceId × Dict ℕ Bytes)
    → Option ResolvedResource
unfolding resource_id_by_name
resolve_on s obj_id inst_id res_name none = none
resolve_on s obj_id inst_id res_name (some (addr, dev_id, versions)) =
    Option.map
      (λ res_id. record {
        addr = addr;
        dev_id = dev_id;
        obj_id = obj_id;
        inst_id = inst_id;
        res_id = res_id;
      })
      (resource_id_by_name s.ipso obj_id res_name (get versions obj_id))

unfoldable pub resolve_object :
    IpcState → Bytes → ℕ → Bytes → Option ℕ → Outcome (Option ResolvedResource)
unfolding resolve_on addr_and_id_by_endpoint
resolve_object s device inst_id res_name none = ok none
resolve_object s device inst_id res_name (some obj_id) =
    addr_and_id_by_endpoint s.registry device >>= λ found.
    ok (resolve_on s obj_id inst_id res_name found)

unfoldable pub resolve_parts : IpcState → Bytes → List Bytes → Outcome (Option ResolvedResource)
unfolding resolve_object object_id_by_name parse_uint
resolve_parts s device (obj_name ∷ inst_str ∷ res_name ∷ []) = elim (parse_uint (2 ^ 16) inst_str) [
  | none ↦ ok none
  | some inst_id ↦ resolve_object s device inst_id res_name (object_id_by_name s.ipso obj_name)
]
resolve_parts s device parts = ok none

unfoldable pub resolve_resource : IpcState → Bytes → Bytes → Outcome (Option ResolvedResource)
unfolding resolve_parts splitn
resolve_resource s path device = resolve_parts s device (splitn 3 b'/' path)

abbrev as_path : ResolvedResource → ResourcePath
as_path r = record {
  object_id = r.obj_id % 2 ^ 16;
  instance_id = r.inst_id;
  resource_id = r.res_id % 2 ^ 16;
}

-- The response, for what the wait for the device's answer ended with.
unfoldable pub answer_response : ResolvedResource → Answer → Json
unfolding coap_status_name
answer_response r (answered (success (coap_response class detail))) = with_metadata (
    field (bytes "lwm2m_client_id") (uint r.dev_id) (
      field (bytes "lwm2m_uri")
        (array (cons (uint r.obj_id) (cons (uint r.inst_id) (cons (uint r.res_id) nil))))
        (field (bytes "lwm2m_response") (text (coap_status_name class detail))
          (field (bytes "lwm2m_response_code") (uint (class * 32 + detail)) done))))
answer_response r answer = success_only false

-- An operation on its way: refused by the channel, or answered while the others go on.
unfoldable pub await_operation :
    Env → (Answer → Json) → SocketAddr → PendingOperation × IpcState → Handled
await_operation env respond addr (op, s) = elim (env.takes op) [
  | false ↦ (success_only false, (s, []))
  | true ↦ (respond (env.answer op), (env.meanwhile op s, dispatched addr op ∷ []))
]

unfoldable pub dispatch_and_await : Env → LwM2mCommand → ResolvedResource → IpcState → Handled
unfolding await_operation answer_response next_operation
dispatch_and_await env command r s =
    await_operation env (answer_response r) r.addr (next_operation env command s)

-- How an exclusion went, by the answer to the factory reset: no tag where the device accepted it.
unfoldable pub exclusion_tag : Answer → Option Bytes
exclusion_tag (answered (success (coap_response class detail))) =
    if class == 2 then none else some (bytes "device_failure")
exclusion_tag elapsed_timeout = some (bytes "device_timeout")
exclusion_tag answer = some (bytes "device_failure")

unfoldable pub reset_taken :
    Env
    → SocketAddr
    → PendingOperation
    → IpcState
    → Bool
    → Option Bytes × (IpcState × List IpcEffect)
unfolding exclusion_tag
reset_taken env addr op s false = (some (bytes "device_failure"), (s, []))
reset_taken env addr op s true =
    (exclusion_tag (env.answer op), (env.meanwhile op s, dispatched addr op ∷ []))

-- The factory reset of a device that is connected.
unfoldable pub reset_device :
    Env → Option SocketAddr → IpcState → Option Bytes × (IpcState × List IpcEffect)
unfolding reset_taken next_operation
reset_device env none s = (some (bytes "device_not_connected"), (s, []))
reset_device env (some addr) s =
    let (op, s') = next_operation env (execute factory_reset_path none) s in
    reset_taken env addr op s' (env.takes op)

unfoldable pub removed_from : IpcState → Option SocketAddr → IpcState
unfolding remove_by_addr
removed_from s none = s
removed_from s (some addr) = record s { registry = (remove_by_addr s.registry addr).1 }

abbrev pub tag_fields : Option Bytes → Fields
tag_fields none = done
tag_fields (some tag) = field (bytes "exclusion") (text tag) done

-- The device is forgotten however the reset went.
unfoldable pub forget :
    Env → Bytes → Option SocketAddr → Option Bytes × (IpcState × List IpcEffect) → Handled
unfolding unmark_included removed_from included_list snapshot
forget env device addr (tag, (s, effects)) =
    let s' = removed_from (record s { bootstrap = unmark_included s.bootstrap device }) addr in
    (
      with_metadata (tag_fields tag),
      (
        s',
        effects
            ++ (persist_exclusion (included_list s'.bootstrap) device
                  (snapshot s'.registry env.now env.now_unix)
                ∷ []),
      ),
    )

unfoldable pub handle_exclusion : Env → Bytes → IpcState → Outcome Handled
unfolding addr_and_id_by_endpoint reset_device forget
handle_exclusion env device s = addr_and_id_by_endpoint s.registry device >>= λ found.
    let addr = Option.map (λ f. f.0) found in ok (forget env device addr (reset_device env addr s))

unfoldable pub execute_on : Env → Json → IpcState → Option ResolvedResource → Handled
unfolding dispatch_and_await execute_args
execute_on env payload s none = fails s
execute_on env payload s (some r) =
    dispatch_and_await env (execute (as_path r) (execute_args payload)) r s

unfoldable pub handle_execute_path : Env → Bytes → Bytes → Json → IpcState → Outcome Handled
unfolding handle_exclusion resolve_resource execute_on same_text
handle_execute_path env path device payload s =
    if same_text path (bytes "device/0/factory_reset")
    then handle_exclusion env device s
    else resolve_resource s path device >>= λ r. ok (execute_on env payload s r)

unfoldable pub write_on : Env → Option (Bytes × ℕ) → IpcState → Option ResolvedResource → Handled
unfolding dispatch_and_await
write_on env encoded s none = fails s
write_on env none s (some r) = fails s
write_on env (some (value, content_format)) s (some r) =
    dispatch_and_await env (write (as_path r) value content_format) r s

unfoldable pub handle_write_path : Env → Bytes → Bytes → Json → IpcState → Outcome Handled
unfolding handle_fota_write resolve_resource write_on encode_write_payload same_text
handle_write_path env path device payload s =
    if same_text path (bytes "firmware_update/0/package")
    then handle_fota_write env device payload s
    else resolve_resource s path device >>= λ r.
        ok (write_on env (encode_write_payload env payload) s r)
