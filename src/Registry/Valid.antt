-- ===== src/Registry/Valid.antt =====
-- The invariant of src/registry.rs: the two indices lead to devices, no index is missing an endpoint,
-- and identifiers not yet given out are free.
use mathlib.Core.Option
use smart_garden_gateway_lwm.Prelude.{◌<◌, ◌≡◌, Option, some, Bytes, bytes_key, nat_key, arith}
use smart_garden_gateway_lwm.Dict.{get}
use smart_garden_gateway_lwm.Dict.Laws.{get-empty, get-insert}
use smart_garden_gateway_lwm.Dict.Unique.{IsUnique, insert-IsUnique, empty-IsUnique}
use smart_garden_gateway_lwm.Model.{DeviceId, SocketAddr, addr_key, Device}
use smart_garden_gateway_lwm.Registry.{RegistryInner, new, put_device}

-- What the device with an identifier has for its endpoint and its address.
abbrev pub endpoint_of : RegistryInner → DeviceId → Option Bytes
endpoint_of r id = Option.map (λ d. d.endpoint) (get r.by_id id)

abbrev pub addr_of : RegistryInner → DeviceId → Option SocketAddr
addr_of r id = Option.map (λ d. d.addr) (get r.by_id id)

pub record IsValid (r : RegistryInner) : Type 0 where
  pub endpoints :
      (e : Bytes) (id : DeviceId) → get r.by_endpoint e ≡ some id → endpoint_of r id ≡ some e
  pub addrs : (a : SocketAddr) (id : DeviceId) → get r.by_addr a ≡ some id → addr_of r id ≡ some a
  pub indexed :
      (id : DeviceId) (d : Device)
      → get r.by_id id ≡ some d
      → (d.id ≡ id) × (get r.by_endpoint d.endpoint ≡ some id) × (id < r.next_id)
  pub unique : IsUnique r.by_id

pub new-IsValid : IsValid new
unfolding new
new-IsValid = record {
  endpoints = λ e id h. cc (get-empty {V = DeviceId} e);
  addrs = λ a id h. cc (get-empty {V = DeviceId} a);
  indexed = λ id d h. cc (get-empty {V = Device} id);
  unique = empty-IsUnique DeviceId Device;
}

-- A device may change in anything but its identifier, its endpoint and its address.
pub put_device-IsValid :
    (r : RegistryInner) (id : DeviceId) (d d' : Device)
    → get r.by_id id ≡ some d
    → d'.id ≡ d.id
    → d'.endpoint ≡ d.endpoint
    → d'.addr ≡ d.addr
    → IsValid r
    → IsValid (put_device r id d')
put_device-IsValid r id d d' found same_id same_endpoint same_addr v = record {
  endpoints = λ e j h. ground (arith, get-insert r.by_id id j d', v.endpoints e j h);
  addrs = λ a j h. ground (arith, get-insert r.by_id id j d', v.addrs a j h);
  indexed =
      λ j x h. ground (arith, get-insert r.by_id id j d', v.indexed id d found, v.indexed j x);
  unique = insert-IsUnique r.by_id id d' v.unique;
}
