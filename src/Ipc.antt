-- ===== src/Ipc.antt =====
-- src/ipc/command.rs: what the IPC requests work on, what they read of JSON documents, and what the
-- rest of the server does while they wait.
pub mod Values
pub mod Requests
pub mod Firmware
pub mod Socket
pub mod Exclusive
pub mod Guard
pub mod Inclusion
pub mod Exclusion
pub mod Events
use smart_garden_gateway_lwm.Prelude.{
  ℕ, ◌+◌, ◌%◌, ◌^◌, Bool, true, false, Option, none, some, List, [], ◌∷◌, Bytes, bytes, Outcome,
}
use smart_garden_gateway_lwm.Json.{Json, bool, text, Fields, object, done, field}
use smart_garden_gateway_lwm.Model.{
  Instant, SocketAddr, Sender, LwM2mCommand, LwM2mResult, PendingOperation, new_operation,
}
use smart_garden_gateway_lwm.Registry.{RegistryInner}
use smart_garden_gateway_lwm.Registry.Persisted.{DeviceSnapshot}
use smart_garden_gateway_lwm.Bootstrap.{BootstrapInner}
use smart_garden_gateway_lwm.Ipso.{IpsoModel}

-- `IpcCtx`, the counter of operations, and the identity of the next channel.
pub record IpcState : Type 0 where
  pub bootstrap : BootstrapInner
  pub registry : RegistryInner
  pub ipso : IpsoModel
  pub next_op_id : ℕ
  pub next_channel : Sender
  pub fota_locked : Bool

-- What a wait for the response of an operation ends with.
pub data Answer : Type 0 where
  answered : LwM2mResult → Answer
  dropped : Answer
  elapsed_timeout : Answer

-- What other code answers: whether the dispatch channel takes an operation, the response to it,
-- whether the first block of it is acknowledged in time, what other tasks change while a request
-- waits for it, the time, and the crates' base64 and formatting of floating-point numbers.
pub record Env : Type 0 where
  pub takes : PendingOperation → Bool
  pub answer : PendingOperation → Answer
  pub first_ack : PendingOperation → Bool
  pub meanwhile : PendingOperation → IpcState → IpcState
  pub now : Instant
  pub now_unix : ℕ
  pub base64_decode : Bytes → Option Bytes
  pub float_text : Json → Option Bytes

-- What a request does besides its response and its changes of the state.
pub data IpcEffect : Type 0 where
  dispatched : SocketAddr → PendingOperation → IpcEffect
  persist_exclusion : List Bytes → Bytes → List DeviceSnapshot → IpcEffect
  upload_in_background : Bytes → PendingOperation → IpcEffect

-- A response, the state after it, and the effects.
abbrev pub Handled : Type 0
Handled = Json × (IpcState × List IpcEffect)

-- `serde_json::json!({"success": b})`
abbrev pub success_only : Bool → Json
success_only b = object (field (bytes "success") (bool b) done)

abbrev pub with_metadata : Fields → Json
with_metadata meta =
    object (field (bytes "metadata") (object meta) (field (bytes "success") (bool true) done))

-- `PendingOperation::new` with the next identifier and a new channel. `fetch_add` wraps around.
unfoldable pub next_operation : Env → LwM2mCommand → IpcState → PendingOperation × IpcState
unfolding new_operation
next_operation env command s = (
  new_operation s.next_op_id command s.next_channel env.now,
  record s { next_op_id = (s.next_op_id + 1) % 2 ^ 32; next_channel = s.next_channel + 1 },
)
