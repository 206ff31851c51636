-- ===== src/Registry/Removal.antt =====
-- Removal of devices in src/registry.rs: it keeps the invariant, and what it answers.
use smart_garden_gateway_lwm.Prelude.{
  ℕ, ◌∙◌, ◌≡◌, refl, some, List, [], ◌∷◌, bytes_key, nat_key, arith, Option-cases, inl, inr, ◌∙◌,
}
use smart_garden_gateway_lwm.Dict.{get, remove}
use smart_garden_gateway_lwm.Dict.Laws.{get-remove}
use smart_garden_gateway_lwm.Dict.Unique.{remove-IsUnique}
use smart_garden_gateway_lwm.Model.{Instant, DeviceId, SocketAddr, addr_key, Device}
use smart_garden_gateway_lwm.Registry.{RegistryInner}
use smart_garden_gateway_lwm.Registry.Sweep.{
  drop_device, drop_all, expired_ids, expire_stale, remove_by_addr,
}
use smart_garden_gateway_lwm.Registry.Valid.{IsValid}
use smart_garden_gateway_lwm.Registry.Kept.{device_at}

pub without_device : RegistryInner → DeviceId → Device → SocketAddr → RegistryInner
without_device r id d addr = record r {
  by_id = remove r.by_id id;
  by_endpoint = remove r.by_endpoint d.endpoint;
  by_addr = remove r.by_addr addr;
}

module _ (r : RegistryInner) (v : IsValid r) where
  without_device-IsValid :
      (id : DeviceId) (d : Device) (addr : SocketAddr)
      → get r.by_id id ≡ some d
      → d.addr ≡ addr
      → IsValid (without_device r id d addr)
  unfolding without_device
  without_device-IsValid id d addr found at = record {
    endpoints = λ e j h. ground (
      arith,
      get-remove r.by_endpoint d.endpoint e,
      get-remove r.by_id id j,
      v.endpoints e j,
      v.indexed id d,
    );
    addrs =
        λ a j h. ground (arith, get-remove r.by_addr addr a, get-remove r.by_id id j, v.addrs a j);
    indexed = λ j x h. ground (
      arith,
      get-remove r.by_id id j,
      get-remove r.by_endpoint d.endpoint x.endpoint,
      v.indexed id d,
      v.indexed j x,
      v.endpoints d.endpoint id,
    );
    unique = remove-IsUnique r.by_id id v.unique;
  }

  pub drop_device-IsValid : (id : DeviceId) → IsValid (drop_device r id).1
  unfolding drop_device without_device
  drop_device-IsValid id = elim (Option-cases (get r.by_id id)) [
    | inl absent ↦ rw (absent, drop_device) v
    | inr (d, found) ↦ rw (found, drop_device) (without_device-IsValid id d d.addr found refl)
  ]

  pub remove_by_addr-IsValid : (addr : SocketAddr) → IsValid (remove_by_addr r addr).1
  unfolding remove_by_addr without_device
  remove_by_addr-IsValid addr = elim (Option-cases (get r.by_addr addr)) [
    | inl absent ↦ rw (absent, remove_by_addr) v
    | inr (id, at) ↦
        let (d, found, same) = device_at r v addr id at in
        rw (at, found, remove_by_addr) (without_device-IsValid id d addr found same)
  ]

pub drop_all-IsValid :
    (r : RegistryInner) (ids : List DeviceId) → IsValid r → IsValid (drop_all r ids).1
unfolding drop_all
drop_all-IsValid r [] v = v
drop_all-IsValid r (id ∷ ids) v =
    drop_all-IsValid (drop_device r id).1 ids (drop_device-IsValid r v id)

pub expire_stale-IsValid :
    (r : RegistryInner) (grace : ℕ) (now : Instant)
    → IsValid r
    → IsValid (expire_stale r grace now).1
unfolding expire_stale
expire_stale-IsValid r grace now v = drop_all-IsValid r (expired_ids r grace now) v

module _ (r : RegistryInner) where
  next_id-drop_device : (id : DeviceId) → (drop_device r id).1.next_id ≡ r.next_id
  unfolding drop_device
  next_id-drop_device id = ground arith

  pub next_id-remove_by_addr : (addr : SocketAddr) → (remove_by_addr r addr).1.next_id ≡ r.next_id
  unfolding remove_by_addr
  next_id-remove_by_addr addr = ground arith

next_id-drop_all :
    (r : RegistryInner) (ids : List DeviceId) → (drop_all r ids).1.next_id ≡ r.next_id
unfolding drop_all
next_id-drop_all r [] = refl
next_id-drop_all r (id ∷ ids) = next_id-drop_all (drop_device r id).1 ids ∙ next_id-drop_device r id

pub next_id-expire_stale :
    (r : RegistryInner) (grace : ℕ) (now : Instant)
    → (expire_stale r grace now).1.next_id ≡ r.next_id
unfolding expire_stale
next_id-expire_stale r grace now = next_id-drop_all r (expired_ids r grace now)
