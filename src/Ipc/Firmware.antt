-- ===== src/Ipc/Firmware.antt =====
-- src/ipc/command.rs: the upload of firmware, under a lock. `handle_fota_write` is cut where it waits,
-- since another request may come in meanwhile.
use smart_garden_gateway_lwm.Prelude.{
  ℕ, zero, ◌+◌, ◌*◌, Bool, true, false, Option, none, some, [], ◌∷◌, Bytes, bytes, leb, ◌==◌,
  if◌then◌else◌, length, Outcome, ok, ◌>>=◌,
}
use smart_garden_gateway_lwm.Dict.{Dict}
use smart_garden_gateway_lwm.Json.{Json, uint, array, cons, nil, done, field}
use smart_garden_gateway_lwm.Model.{
  SocketAddr, DeviceId, PendingOperation, LwM2mCommand, write, coap_response, success, fota_path,
}
use smart_garden_gateway_lwm.Client.{block_threshold}
use smart_garden_gateway_lwm.Registry.Queries.{addr_and_id_by_endpoint}
use smart_garden_gateway_lwm.Ipc.{
  IpcState, Env, Answer, answered, dispatched, upload_in_background, Handled, success_only,
  with_metadata, next_operation,
}
use smart_garden_gateway_lwm.Ipc.Values.{index, as_str}

-- Where an upload waits: for the response to a single write, for the acknowledgement of the first
-- block, or, in a task of its own, for the response to a write in blocks.
pub data Phase : Type 0 where
  single first_block background : Phase

-- The task of `handle_fota_write` that waits with the guard of the lock, or the one that it has handed
-- the guard to. The blocks are sent by another task, `dispatch_block_write` of src/lwm2m/client.rs.
pub record UploadTask : Type 0 where
  pub device : Bytes
  pub addr : SocketAddr
  pub dev_id : DeviceId
  pub op : PendingOperation
  pub phase : Phase

-- The bytes to write, and how.
abbrev pub phase_of : Bytes → Phase
phase_of (zero ∷ []) = single
phase_of value = if leb (length value) block_threshold then single else first_block

-- A write in blocks has a second channel, for the first acknowledgement.
abbrev pub with_channels : Phase → PendingOperation × IpcState → PendingOperation × IpcState
with_channels single (op, s) = (op, s)
with_channels background (op, s) = (op, s)
with_channels first_block (op, s) = (
  record op { first_ack_tx = some s.next_channel },
  record s { next_channel = s.next_channel + 1 },
)

abbrev firmware : Bytes → LwM2mCommand
firmware value = write fota_path value 42

-- The operation of an upload, the lock taken.
abbrev pub new_upload :
    Bytes
    → (SocketAddr × DeviceId × Dict ℕ Bytes)
    → Bytes
    → PendingOperation × IpcState
    → Option UploadTask × IpcState
new_upload device (addr, dev_id, versions) value (op, s) = (
  some (record { device = device; addr = addr; dev_id = dev_id; op = op; phase = phase_of value }),
  s,
)

-- `try_lock_owned`, on a lock that is held and on one that is free.
unfoldable pub try_upload :
    Env
    → Bytes
    → (SocketAddr × DeviceId × Dict ℕ Bytes)
    → Bytes
    → IpcState
    → Bool
    → Option UploadTask × IpcState
unfolding next_operation
try_upload env device found value s true = (none, s)
try_upload env device found value s false =
    let locked = record s { fota_locked = true } in
    new_upload device found value
      (with_channels (phase_of value) (next_operation env (firmware value) locked))

abbrev pub decode_firmware : Env → Option Bytes → Option Bytes
decode_firmware env none = none
decode_firmware env (some s) = env.base64_decode s

unfoldable pub with_firmware :
    Env
    → Bytes
    → SocketAddr × DeviceId × Dict ℕ Bytes
    → Option Bytes
    → IpcState
    → Option UploadTask × IpcState
unfolding try_upload
with_firmware env device found none s = (none, s)
with_firmware env device found (some value) s = try_upload env device found value s s.fota_locked

unfoldable pub upload_to :
    Env
    → Bytes
    → Option Bytes
    → IpcState
    → Option (SocketAddr × DeviceId × Dict ℕ Bytes)
    → Option UploadTask × IpcState
unfolding with_firmware
upload_to env device encoded s none = (none, s)
upload_to env device encoded s (some found) =
    with_firmware env device found (decode_firmware env encoded) s

-- `handle_fota_write` up to its first wait: the upload, unless it is refused.
unfoldable pub begin_upload : Env → Bytes → Json → IpcState → Outcome (Option UploadTask × IpcState)
unfolding addr_and_id_by_endpoint upload_to
begin_upload env device payload s = addr_and_id_by_endpoint s.registry device >>= λ found.
    ok (upload_to env device (as_str (index payload (bytes "vo"))) s found)

-- The guard is dropped.
abbrev pub unlock : IpcState → IpcState
unlock s = record s { fota_locked = false }

-- The response to a single write: a success of class 2.
unfoldable pub single_response : UploadTask → Answer → Json
single_response u (answered (success (coap_response class detail))) =
    if class == 2
    then with_metadata (
        field (bytes "lwm2m_client_id") (uint u.dev_id) (
          field (bytes "lwm2m_uri") (array (cons (uint 5) (cons (uint 0) (cons (uint 0) nil))))
            (field (bytes "lwm2m_response_code") (uint (2 * 32 + detail)) done)))
    else success_only false
single_response u answer = success_only false

unfoldable pub started_response : UploadTask → Json
started_response u = with_metadata (
    field (bytes "lwm2m_client_id") (uint u.dev_id)
      (field (bytes "operation_id") (uint u.op.id) done))

-- What follows the send: the response, the lock and the upload that is left in the background.
abbrev pub after_single : Env → UploadTask → IpcState → Handled
unfolding single_response
after_single env u s = (
  single_response u (env.answer u.op),
  (unlock (env.meanwhile u.op s), dispatched u.addr u.op ∷ []),
)

abbrev pub after_first_block : Env → UploadTask → IpcState → Handled
unfolding started_response
after_first_block env u s = elim (env.first_ack u.op) [
  | true ↦ (
    started_response u,
    (env.meanwhile u.op s, dispatched u.addr u.op ∷ upload_in_background u.device u.op ∷ []),
  )
  | false ↦ (success_only false, (unlock (env.meanwhile u.op s), dispatched u.addr u.op ∷ []))
]

abbrev after_send : Env → UploadTask → IpcState → Handled
unfolding after_single after_first_block
after_send env u s = elim u.phase [
  | single ↦ after_single env u s
  | first_block ↦ after_first_block env u s
  | background ↦ after_single env u s
]

unfoldable pub run_upload : Env → Option UploadTask × IpcState → Handled
unfolding after_send
run_upload env (none, s) = (success_only false, (s, []))
run_upload env (some u, s) = elim (env.takes u.op) [
  | false ↦ (success_only false, (unlock s, []))
  | true ↦ after_send env u s
]

unfoldable pub handle_fota_write : Env → Bytes → Json → IpcState → Outcome Handled
unfolding begin_upload run_upload
handle_fota_write env device payload s =
    begin_upload env device payload s >>= λ begun. ok (run_upload env begun)
