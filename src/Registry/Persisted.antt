-- ===== src/Registry/Persisted.antt =====
-- src/registry.rs: the snapshot that is persisted, and its restoration at start-up.
use smart_garden_gateway_lwm.Prelude.{
  ℕ, ◌+◌, ◌-◌, ◌%◌, ◌^◌, false, none, some, List, [], ◌∷◌, map, Bytes, bytes_key, nat_key, leb,
  if◌then◌else◌,
}
use smart_garden_gateway_lwm.Dict.{Dict, empty, insert, values}
use smart_garden_gateway_lwm.Json.{object, done}
use smart_garden_gateway_lwm.Model.{
  Instant, elapsed, as_secs, DeviceId, SocketAddr, addr_key, Device,
}
use smart_garden_gateway_lwm.Registry.{RegistryInner}

pub record DeviceSnapshot : Type 0 where
  pub id : DeviceId
  pub endpoint : Bytes
  pub addr : SocketAddr
  pub lifetime : ℕ
  pub objects : List Bytes
  pub object_versions : Dict ℕ Bytes
  pub lwm2m_version : Bytes
  pub binding_mode : Bytes
  pub end_of_life : ℕ

-- `lifetime.saturating_sub(elapsed as u32)`
unfoldable pub remaining_lifetime : Device → Instant → ℕ
remaining_lifetime d now = d.lifetime - as_secs (elapsed now d.last_registered_at) % 2 ^ 32

-- `now_unix` is the wall clock in seconds.
unfoldable pub snapshot_device : Instant → ℕ → Device → DeviceSnapshot
unfolding remaining_lifetime
snapshot_device now now_unix d = record {
  id = d.id;
  endpoint = d.endpoint;
  addr = d.addr;
  lifetime = remaining_lifetime d now;
  objects = d.objects;
  object_versions = d.object_versions;
  lwm2m_version = d.lwm2m_version;
  binding_mode = d.binding_mode;
  end_of_life = now_unix + remaining_lifetime d now;
}

unfoldable pub snapshot : RegistryInner → Instant → ℕ → List DeviceSnapshot
unfolding snapshot_device
snapshot r now now_unix = map (snapshot_device now now_unix) (values r.by_id)

-- A restored device is offline since now.
unfoldable pub restored_device : DeviceSnapshot → Instant → Device
restored_device s now = record {
  id = s.id;
  endpoint = s.endpoint;
  addr = s.addr;
  lifetime = s.lifetime;
  registered_at = now;
  last_registered_at = now;
  last_contact = now;
  objects = s.objects;
  object_versions = s.object_versions;
  lwm2m_version = s.lwm2m_version;
  binding_mode = s.binding_mode;
  state = object done;
  online = some false;
  offline_since = some now;
  last_ping_attempt = none;
  pending_ops = [];
  in_flight = empty;
}

-- `s.id + 1` on u32, as a release build computes it.
unfoldable pub restore_one : RegistryInner → DeviceSnapshot → Instant → RegistryInner
unfolding restored_device
restore_one r s now = record {
  next_id = if leb r.next_id s.id then (s.id + 1) % 2 ^ 32 else r.next_id;
  by_endpoint = insert r.by_endpoint s.endpoint s.id;
  by_addr = insert r.by_addr s.addr s.id;
  by_id = insert r.by_id s.id (restored_device s now);
}

unfoldable pub restore : RegistryInner → List DeviceSnapshot → Instant → RegistryInner
unfolding restore_one
restore r [] now = r
restore r (s ∷ rest) now = restore (restore_one r s now) rest now
