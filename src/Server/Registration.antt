-- ===== src/Server/Registration.antt =====
-- src/lwm2m/server.rs: an update of a device's registration hands over what waits for the device.
use smart_garden_gateway_lwm.Prelude.{
  ◌≡◌, refl, sym, ap, ◌∙◌, Bool, true, Option, none, some, List, [], ◌∷◌, Bytes, bytes_key, nat_key,
  Outcome, ok, panic, arith, subst,
}
use smart_garden_gateway_lwm.Dict.{get}
use smart_garden_gateway_lwm.Dict.Laws.{get-insert}
use smart_garden_gateway_lwm.Model.{
  Instant, SocketAddr, addr_key, DeviceId, Device, PendingOperation,
}
use smart_garden_gateway_lwm.Coap.{Packet, changed}
use smart_garden_gateway_lwm.Registry.{RegistryInner, put_device}
use smart_garden_gateway_lwm.Registry.Contact.{renew_registration, or_keep}
use smart_garden_gateway_lwm.Registry.Operations.{drain_pending}
use smart_garden_gateway_lwm.Server.Requests.{
  Effect, send_encrypted, dispatch_some, response_packet, lifetime_param, handle_update,
}

abbrev pub renewed : Device → Option DeviceId → Instant → Device
renewed d lt now = record d {
  last_registered_at = now;
  lifetime = or_keep lt d.lifetime;
  pending_ops = [];
}

-- The actions of the update, and the device in the state behind it.
abbrev pub IsUpdated :
    SocketAddr
    → DeviceId
    → Device
    → Packet
    → Option DeviceId
    → Instant
    → Outcome (List Effect × RegistryInner)
    → Type 0
IsUpdated addr id d answer lt now panic = ⊥
IsUpdated addr id d answer lt now (ok (effects, r)) =
    (effects ≡ send_encrypted answer addr ∷ dispatch_some addr d.pending_ops)
    × (get r.by_id id ≡ some (renewed d lt now))

get-put_device :
    (r : RegistryInner) (id : DeviceId) (d : Device) → get (put_device r id d).by_id id ≡ some d
get-put_device r id d = ground (arith, get-insert r.by_id id id d)

renew_at :
    (r : RegistryInner) (addr : SocketAddr) (id : DeviceId) (d : Device) (lt : Option DeviceId)
    (now : Instant)
    → get r.by_addr addr ≡ some id
    → get r.by_id id ≡ some d
    → renew_registration r addr lt now
      ≡ put_device r id (record d { last_registered_at = now; lifetime = or_keep lt d.lifetime })
unfolding renew_registration
renew_at r addr id d lt now at found = rw (at, found, renew_registration) refl

drain_at :
    (r : RegistryInner) (addr : SocketAddr) (id : DeviceId) (d : Device)
    → get r.by_addr addr ≡ some id
    → get r.by_id id ≡ some d
    → drain_pending r addr ≡ ok (d.pending_ops, put_device r id (record d { pending_ops = [] }))
unfolding drain_pending
drain_at r addr id d at found = rw (at, found, drain_pending) refl

drain-renew :
    (r : RegistryInner) (addr : SocketAddr) (id : DeviceId) (d : Device) (lt : Option DeviceId)
    (now : Instant)
    → get r.by_addr addr ≡ some id
    → get r.by_id id ≡ some d
    → let d1 = record d { last_registered_at = now; lifetime = or_keep lt d.lifetime } in
      drain_pending (renew_registration r addr lt now) addr
      ≡ ok (d.pending_ops, put_device (put_device r id d1) id (renewed d lt now))
drain-renew r addr id d lt now at found =
    let d1 = record d { last_registered_at = now; lifetime = or_keep lt d.lifetime } in
    ap (λ r'. drain_pending r' addr) (renew_at r addr id d lt now at found)
    ∙ drain_at (put_device r id d1) addr id d1 at (get-put_device r id d1)

module _ (lossy : Bytes → Bytes) (sends : Packet → Bool) (p : Packet) where
  update_answered :
      (addr : SocketAddr) (r r' : RegistryInner) (ops : List PendingOperation) (now : Instant)
      → sends (response_packet p changed none) ≡ true
      → drain_pending (renew_registration r addr (lifetime_param lossy sends p) now) addr
        ≡ ok (ops, r')
      → handle_update lossy sends p addr r now
        ≡ ok (send_encrypted (response_packet p changed none) addr ∷ dispatch_some addr ops, r')
  unfolding handle_update
  update_answered addr r r' ops now sent drained = rw (sent, drained, handle_update) refl

  -- An update from a registered device, whose answer can be sent, is answered with 2.04 and hands
  -- over all operations that wait for the device in their order, if there are any; the device's
  -- registration then starts now, has the lifetime that the query gives or the one it had, and
  -- nothing waits for it.
  pub handle_update-IsUpdated :
      (addr : SocketAddr) (r : RegistryInner) (id : DeviceId) (d : Device) (now : Instant)
      → get r.by_addr addr ≡ some id
      → get r.by_id id ≡ some d
      → sends (response_packet p changed none) ≡ true
      → IsUpdated addr id d
          (response_packet p changed none)
          (lifetime_param lossy sends p)
          now
          (handle_update lossy sends p addr r now)
  handle_update-IsUpdated addr r id d now at found sent =
      let lt = lifetime_param lossy sends p in
      let d1 = record d { last_registered_at = now; lifetime = or_keep lt d.lifetime } in
      let r' = put_device (put_device r id d1) id (renewed d lt now) in
      subst (IsUpdated addr id d (response_packet p changed none) lt now)
        (sym (
          update_answered addr r r' d.pending_ops now sent
            (drain-renew r addr id d lt now at found)))
        (refl, get-put_device (put_device r id d1) id (renewed d lt now))
