-- ===== src/Registry/Contact.antt =====
-- src/registry.rs: registration updates, and whether a device is reachable.
use smart_garden_gateway_lwm.Prelude.{
  ℕ, true, false, Option, none, some, Bytes, nat_key, Outcome, ok, expect, ◌>>=◌,
}
use smart_garden_gateway_lwm.Dict.{get}
use smart_garden_gateway_lwm.Model.{Instant, SocketAddr, addr_key, Device}
use smart_garden_gateway_lwm.Registry.{RegistryInner, put_device}

abbrev pub or_keep : Option ℕ → ℕ → ℕ
or_keep none n = n
or_keep (some m) n = m

unfoldable pub renew_registration : RegistryInner → SocketAddr → Option ℕ → Instant → RegistryInner
renew_registration r addr new_lifetime now = elim (get r.by_addr addr) [
  | none ↦ r
  | some id ↦ elim (get r.by_id id) [
    | none ↦ r
    | some d ↦
        put_device r id
          (record d { last_registered_at = now; lifetime = or_keep new_lifetime d.lifetime })
  ]
]

-- The endpoint is returned when the device was not online before.
unfoldable pub touched : Device → SocketAddr → Instant → Option Bytes × Device
touched d addr now = elim d.online [
  | some true ↦ (none, record d { last_contact = now; addr = addr })
  | _ ↦ (
    some d.endpoint,
    record d { last_contact = now; addr = addr; online = some true; offline_since = none },
  )
]

unfoldable pub touch : RegistryInner → SocketAddr → Instant → Outcome (Option Bytes × RegistryInner)
unfolding touched
touch r addr now = elim (get r.by_addr addr) [
  | none ↦ ok (none, r)
  | some id ↦ do
    d ← expect (get r.by_id id)
    let (came_online, d') = touched d addr now
    ok (came_online, put_device r id d')
]

unfoldable pub set_device_offline :
    RegistryInner → SocketAddr → Instant → Option Bytes × RegistryInner
set_device_offline r addr now = elim (get r.by_addr addr) [
  | none ↦ (none, r)
  | some id ↦ elim (get r.by_id id) [
    | none ↦ (none, r)
    | some d ↦ elim d.online [
      | some true ↦ (
        some d.endpoint,
        put_device r id (record d { online = some false; offline_since = some now }),
      )
      | _ ↦ (none, r)
    ]
  ]
]
