-- ===== src/Model.antt =====
-- src/model.rs: addresses of resources, commands and results, pending operations, devices.
use smart_garden_gateway_lwm.Prelude.{
  ℕ, ◌+◌, ◌-◌, ◌/◌, Bool, true, Option, none, some, List, [], Bytes, ltb, Key, nat_key, bytes_key,
  ℕ_discrete,
}
use smart_garden_gateway_lwm.Dict.{Dict, empty}
use smart_garden_gateway_lwm.Json.{Json, object, done}

-- An `Instant` is a number of nanoseconds on the monotonic clock. `elapsed` stops at 0.
abbrev pub Instant : Type 0
Instant = ℕ

abbrev pub elapsed : ℕ → Instant → ℕ
elapsed now t = now - t

abbrev pub nanos_per_sec : ℕ
nanos_per_sec = 1000000000

abbrev pub as_secs : ℕ → ℕ
as_secs d = d / nanos_per_sec

abbrev pub DeviceId : Type 0
DeviceId = ℕ

-- `std::net::SocketAddr`, each address with its port, and with flow label and scope for IPv6.
pub data SocketAddr : Type 0 where
  v4 : ℕ → ℕ → SocketAddr
  v6 : ℕ → ℕ → ℕ → ℕ → SocketAddr

pub SocketAddr-discrete : Discrete SocketAddr
SocketAddr-discrete = hlevel ℕ_discrete

instance unfoldable pub addr_key : Key SocketAddr
unfolding SocketAddr-discrete
addr_key = record { dec = SocketAddr-discrete }

-- The eight bytes of a CoAP token.
abbrev pub Token : Type 0
Token = Bytes

pub record ResourcePath : Type 0 where
  pub object_id : ℕ
  pub instance_id : ℕ
  pub resource_id : ℕ

pub data LwM2mCommand : Type 0 where
  read : ResourcePath → LwM2mCommand
  write : ResourcePath → Bytes → ℕ → LwM2mCommand
  execute : ResourcePath → Option Bytes → LwM2mCommand

pub data ResourceValue : Type 0 where
  text : Bytes → ResourceValue
  coap_response : ℕ → ℕ → ResourceValue

pub data LwM2mError : Type 0 where
  not_found bad_request timeout : LwM2mError
  coap_error : ℕ → ℕ → LwM2mError

pub data LwM2mResult : Type 0 where
  success : ResourceValue → LwM2mResult
  failure : LwM2mError → LwM2mResult

-- A oneshot sender, by the identity of its channel.
abbrev pub Sender : Type 0
Sender = ℕ

pub record PendingOperation : Type 0 where
  pub id : ℕ
  pub command : LwM2mCommand
  pub response_tx : Sender
  pub first_ack_tx : Option Sender
  pub created_at : Instant
  pub attempts : ℕ

unfoldable pub new_operation : ℕ → LwM2mCommand → Sender → Instant → PendingOperation
new_operation id command response_tx now = record {
  id = id;
  command = command;
  response_tx = response_tx;
  first_ack_tx = none;
  created_at = now;
  attempts = 0;
}

abbrev pub ping_path : ResourcePath
ping_path = record { object_id = 1; instance_id = 1; resource_id = 8 }

abbrev pub factory_reset_path : ResourcePath
factory_reset_path = record { object_id = 3; instance_id = 0; resource_id = 5 }

abbrev pub fota_path : ResourcePath
fota_path = record { object_id = 5; instance_id = 0; resource_id = 0 }

-- What a device declares when it registers.
pub record Registration : Type 0 where
  pub endpoint : Bytes
  pub addr : SocketAddr
  pub lifetime : ℕ
  pub objects : List Bytes
  pub object_versions : Dict ℕ Bytes
  pub lwm2m_version : Bytes
  pub binding_mode : Bytes

pub record Device : Type 0 where
  pub id : DeviceId
  pub endpoint : Bytes
  pub addr : SocketAddr
  pub lifetime : ℕ
  pub registered_at : Instant
  pub last_registered_at : Instant
  pub last_contact : Instant
  pub objects : List Bytes
  pub object_versions : Dict ℕ Bytes
  pub lwm2m_version : Bytes
  pub binding_mode : Bytes
  pub state : Json
  pub online : Option Bool
  pub offline_since : Option Instant
  pub last_ping_attempt : Option Instant
  pub pending_ops : List PendingOperation
  pub in_flight : Dict Token PendingOperation

unfoldable pub new_device : DeviceId → Registration → Instant → Device
new_device id r now = record {
  id = id;
  endpoint = r.endpoint;
  addr = r.addr;
  lifetime = r.lifetime;
  registered_at = now;
  last_registered_at = now;
  last_contact = now;
  objects = r.objects;
  object_versions = r.object_versions;
  lwm2m_version = r.lwm2m_version;
  binding_mode = r.binding_mode;
  state = object done;
  online = some true;
  offline_since = none;
  last_ping_attempt = none;
  pending_ops = [];
  in_flight = empty;
}

unfoldable pub is_expired : Device → ℕ → Instant → Bool
is_expired d grace_secs now =
    let total = d.lifetime + grace_secs in ltb total (as_secs (elapsed now d.last_registered_at))
