-- ===== src/Registry.antt =====
-- src/registry.rs: the devices, with an index by endpoint and one by address. Each method takes the
-- state behind the lock and the time of its clock readings; `panic` is a failed `unwrap` or index.
-- Here are the state and registration; the children have the other methods and the proofs.
pub mod Contact
pub mod Operations
pub mod Queries
pub mod Sweep
pub mod Persisted
pub mod Valid
pub mod Registering
pub mod Kept
pub mod Removal
pub mod Expiry
pub mod Restart
pub mod SharedAddress
pub mod Trace
pub mod Pings
pub mod Replies
use smart_garden_gateway_lwm.Prelude.{
  ℕ, ◌+◌, ◌%◌, ◌^◌, max, ite, Option, none, some, Bytes, bytes_key, nat_key, Outcome, ok, expect,
  ◌>>=◌,
}
use smart_garden_gateway_lwm.Dict.{Dict, empty, get, insert, remove}
use smart_garden_gateway_lwm.Model.{
  Instant, DeviceId, SocketAddr, addr_key, Registration, Device, new_device,
}

pub record RegistryInner : Type 0 where
  pub by_id : Dict DeviceId Device
  pub by_endpoint : Dict Bytes DeviceId
  pub by_addr : Dict SocketAddr DeviceId
  pub next_id : DeviceId

unfoldable pub new : RegistryInner
new = record { by_id = empty; by_endpoint = empty; by_addr = empty; next_id = 1 }

-- `*inner.by_id.get_mut(&id) = dev`
abbrev pub put_device : RegistryInner → DeviceId → Device → RegistryInner
put_device r id dev = record r { by_id = insert r.by_id id dev }

-- What `register` writes to a device that is there.
unfoldable pub refreshed : Device → Registration → Instant → Device
refreshed d g now = record d {
  addr = g.addr;
  lifetime = g.lifetime;
  objects = g.objects;
  object_versions = g.object_versions;
  lwm2m_version = g.lwm2m_version;
  binding_mode = g.binding_mode;
  registered_at = now;
  last_registered_at = now;
  last_contact = now;
}

-- The address index is moved only when the address has changed.
unfoldable pub moved_index :
    Dict SocketAddr DeviceId → SocketAddr → SocketAddr → DeviceId → Dict SocketAddr DeviceId
moved_index by_addr old_addr addr id =
    ite (addr_key.dec old_addr addr) by_addr (insert (remove by_addr old_addr) addr id)

unfoldable pub register_known :
    RegistryInner → DeviceId → Registration → Instant → Outcome (DeviceId × RegistryInner)
unfolding refreshed moved_index
register_known r id g now = do
  old ← expect (get r.by_id id)
  ok (
    id,
    record r {
      by_id = insert r.by_id id (refreshed old g now);
      by_addr = moved_index r.by_addr old.addr g.addr id;
    },
  )

-- `next_id.wrapping_add(1).max(1)` on u32.
unfoldable pub following_id : DeviceId → DeviceId
following_id id = max ((id + 1) % 2 ^ 32) 1

unfoldable pub register_new : RegistryInner → Registration → Instant → DeviceId × RegistryInner
unfolding following_id
register_new r g now =
    let id = r.next_id in
    (
      id,
      record {
        by_id = insert r.by_id id (new_device id g now);
        by_endpoint = insert r.by_endpoint g.endpoint id;
        by_addr = insert r.by_addr g.addr id;
        next_id = following_id id;
      },
    )

unfoldable pub register :
    RegistryInner → Registration → Instant → Outcome (DeviceId × RegistryInner)
unfolding register_known register_new
register r g now = elim (get r.by_endpoint g.endpoint) [
  | some id ↦ register_known r id g now
  | none ↦ ok (register_new r g now)
]
