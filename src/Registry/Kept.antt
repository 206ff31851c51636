-- ===== src/Registry/Kept.antt =====
-- The methods of src/registry.rs that change one device keep the invariant and do not panic.
use smart_garden_gateway_lwm.Prelude.{
  ℕ, ◌≡◌, refl, false, Option, none, some, List, [], Bytes, bytes_key, nat_key, arith, Option-cases,
  inl, inr, ok,
}
use smart_garden_gateway_lwm.Dict.{get, insert, remove}
use smart_garden_gateway_lwm.Json.{Json}
use smart_garden_gateway_lwm.Json.Merge.{json_merge}
use smart_garden_gateway_lwm.Model.{
  Instant, DeviceId, SocketAddr, addr_key, Device, Token, PendingOperation,
}
use smart_garden_gateway_lwm.Registry.{RegistryInner, put_device}
use smart_garden_gateway_lwm.Registry.Contact.{
  or_keep, renew_registration, touched, touch, set_device_offline,
}
use smart_garden_gateway_lwm.Registry.Operations.{
  drain_pending, place_in_flight, complete_in_flight,
}
use smart_garden_gateway_lwm.Registry.Queries.{merge_device_state_by_addr, restore_device_state}
use smart_garden_gateway_lwm.Registry.Valid.{IsValid, put_device-IsValid}

module _ (r : RegistryInner) (v : IsValid r) where
  -- In a valid state an address of the index is that of a device.
  pub device_at :
      (a : SocketAddr) (id : DeviceId)
      → get r.by_addr a ≡ some id
      → (d : Device) × (get r.by_id id ≡ some d) × (d.addr ≡ a)
  device_at a id h = elim (Option-cases (get r.by_id id)) [
    | inl absent ↦ absurd (ground (arith, v.addrs a id h))
    | inr (d, found) ↦ (d, found, ground (arith, v.addrs a id h))
  ]

  pub device_named :
      (e : Bytes) (id : DeviceId)
      → get r.by_endpoint e ≡ some id
      → (d : Device) × (get r.by_id id ≡ some d) × (d.endpoint ≡ e)
  device_named e id h = elim (Option-cases (get r.by_id id)) [
    | inl absent ↦ absurd (ground (arith, v.endpoints e id h))
    | inr (d, found) ↦ (d, found, ground (arith, v.endpoints e id h))
  ]

  module _ (addr : SocketAddr) where
    pub renew_registration-IsValid :
        (lt : Option ℕ) (now : Instant) → IsValid (renew_registration r addr lt now)
    unfolding renew_registration
    renew_registration-IsValid lt now = elim (Option-cases (get r.by_addr addr)) [
      | inl absent ↦ rw (absent, renew_registration) v
      | inr (id, at) ↦
          let (d, found, same) = device_at addr id at in
          rw (at, found, renew_registration)
            (put_device-IsValid r id d
              (record d { last_registered_at = now; lifetime = or_keep lt d.lifetime }) found refl
              refl refl v)
    ]

    pub set_device_offline-IsValid : (now : Instant) → IsValid (set_device_offline r addr now).1
    unfolding set_device_offline
    set_device_offline-IsValid now = elim (Option-cases (get r.by_addr addr)) [
      | inl absent ↦ rw (absent, set_device_offline) v
      | inr (id, at) ↦
          let (d, found, same) = device_at addr id at in
          let kept =
            put_device-IsValid r id d (record d { online = some false; offline_since = some now })
              found refl refl refl v in
          ground (arith, kept)
    ]

    pub place_in_flight-IsValid :
        (token : Token) (op : PendingOperation) → IsValid (place_in_flight r addr token op)
    unfolding place_in_flight
    place_in_flight-IsValid token op = elim (Option-cases (get r.by_addr addr)) [
      | inl absent ↦ rw (absent, place_in_flight) v
      | inr (id, at) ↦
          let (d, found, same) = device_at addr id at in
          rw (at, found, place_in_flight)
            (put_device-IsValid r id d (record d { in_flight = insert d.in_flight token op }) found
              refl refl refl v)
    ]

    pub complete_in_flight-IsValid : (token : Token) → IsValid (complete_in_flight r addr token).1
    unfolding complete_in_flight
    complete_in_flight-IsValid token = elim (Option-cases (get r.by_addr addr)) [
      | inl absent ↦ rw (absent, complete_in_flight) v
      | inr (id, at) ↦
          let (d, found, same) = device_at addr id at in
          rw (at, found, complete_in_flight)
            (put_device-IsValid r id d (record d { in_flight = remove d.in_flight token }) found
              refl refl refl v)
    ]

    pub touch-IsValid :
        (now : Instant)
        → (out : Option Bytes) × (r' : RegistryInner) × (touch r addr now ≡ ok (out, r'))
          × IsValid r'
          × (r'.next_id ≡ r.next_id)
    unfolding touch
    touch-IsValid now = elim (Option-cases (get r.by_addr addr)) [
      | inl absent ↦ rw (absent, touch) (none, r, refl, v, refl)
      | inr (id, at) ↦
          let (d, found, same) = device_at addr id at in
          rw (at, found, touch)
            (
              (touched d addr now).0,
              put_device r id (touched d addr now).1,
              refl,
              put_device-IsValid r id d (touched d addr now).1 found
                  (unfold touched in ground arith) (unfold touched in ground arith)
                  (unfold touched in ground (arith, same)) v,
              refl,
            )
    ]

    pub drain_pending-IsValid :
        (ops : List PendingOperation) × (r' : RegistryInner) × (drain_pending r addr ≡ ok (ops, r'))
        × IsValid r'
        × (r'.next_id ≡ r.next_id)
    unfolding drain_pending
    drain_pending-IsValid = elim (Option-cases (get r.by_addr addr)) [
      | inl absent ↦ rw (absent, drain_pending) ([], r, refl, v, refl)
      | inr (id, at) ↦
          let (d, found, same) = device_at addr id at in
          rw (at, found, drain_pending)
            (
              d.pending_ops,
              put_device r id (record d { pending_ops = [] }),
              refl,
              put_device-IsValid r id d (record d { pending_ops = [] }) found refl refl refl v,
              refl,
            )
    ]

    pub merge_device_state-IsValid :
        (s : Json)
        → (out : Json) × (r' : RegistryInner) × (merge_device_state_by_addr r addr s ≡ ok (out, r'))
          × IsValid r'
          × (r'.next_id ≡ r.next_id)
    unfolding merge_device_state_by_addr
    merge_device_state-IsValid s = elim (Option-cases (get r.by_addr addr)) [
      | inl absent ↦ rw (absent, merge_device_state_by_addr) (s, r, refl, v, refl)
      | inr (id, at) ↦
          let (d, found, same) = device_at addr id at in
          rw (at, found, merge_device_state_by_addr)
            (
              json_merge d.state s,
              put_device r id (record d { state = json_merge d.state s }),
              refl,
              put_device-IsValid r id d (record d { state = json_merge d.state s }) found refl refl
                  refl v,
              refl,
            )
    ]

  pub restore_device_state-IsValid : (e : Bytes) (s : Json) → IsValid (restore_device_state r e s)
  unfolding restore_device_state
  restore_device_state-IsValid e s = elim (Option-cases (get r.by_endpoint e)) [
    | inl absent ↦ rw (absent, restore_device_state) v
    | inr (id, at) ↦
        let (d, found, same) = device_named e id at in
        rw (at, found, restore_device_state)
          (put_device-IsValid r id d (record d { state = s }) found refl refl refl v)
  ]

pub next_id-restore_device_state :
    (r : RegistryInner) (e : Bytes) (s : Json) → (restore_device_state r e s).next_id ≡ r.next_id
unfolding restore_device_state
next_id-restore_device_state r e s = ground arith

module _ (r : RegistryInner) (addr : SocketAddr) where
  pub next_id-renew_registration :
      (lt : Option ℕ) (now : Instant) → (renew_registration r addr lt now).next_id ≡ r.next_id
  unfolding renew_registration
  next_id-renew_registration lt now = ground arith

  pub next_id-set_device_offline :
      (now : Instant) → (set_device_offline r addr now).1.next_id ≡ r.next_id
  unfolding set_device_offline
  next_id-set_device_offline now = ground arith

  pub next_id-place_in_flight :
      (t : Token) (op : PendingOperation) → (place_in_flight r addr t op).next_id ≡ r.next_id
  unfolding place_in_flight
  next_id-place_in_flight t op = ground arith

  pub next_id-complete_in_flight : (t : Token) → (complete_in_flight r addr t).1.next_id ≡ r.next_id
  unfolding complete_in_flight
  next_id-complete_in_flight t = ground arith
