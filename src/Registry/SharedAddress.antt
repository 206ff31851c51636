-- ===== src/Registry/SharedAddress.antt =====
-- Two devices of src/registry.rs at one address: the removal of one takes the address index from the
-- other, and a registration of the other from the same address does not bring it back.
use smart_garden_gateway_lwm.Prelude.{
  ◌≡◌, refl, ◌≢◌, none, some, bytes_key, nat_key, arith, ok, if_pos, sym,
}
use smart_garden_gateway_lwm.Dict.{get, insert}
use smart_garden_gateway_lwm.Dict.Laws.{get-remove}
use smart_garden_gateway_lwm.Model.{Instant, DeviceId, addr_key, Registration, Device}
use smart_garden_gateway_lwm.Registry.{
  RegistryInner, register, register_known, moved_index, refreshed,
}
use smart_garden_gateway_lwm.Registry.Sweep.{drop_device}
use smart_garden_gateway_lwm.Registry.Valid.{IsValid}

-- Let two devices of a valid state have one address. When the first expires, the index has no entry for the
-- address, while the second is still registered. When the second then registers again from that
-- address, it keeps its identifier and the index still has no entry for it.
pub shared_address_lost :
    (r : RegistryInner) (i j : DeviceId) (d e : Device) (g : Registration) (now : Instant)
    → IsValid r
    → i ≢ j
    → get r.by_id i ≡ some d
    → get r.by_id j ≡ some e
    → d.addr ≡ e.addr
    → g.endpoint ≡ e.endpoint
    → g.addr ≡ e.addr
    → (get (drop_device r i).1.by_addr e.addr ≡ none)
      × (get (drop_device r i).1.by_id j ≡ some e)
      × (r' : RegistryInner) × (register (drop_device r i).1 g now ≡ ok (j, r'))
      × (get r'.by_addr e.addr ≡ none)
unfolding drop_device register register_known moved_index
shared_address_lost r i j d e g now v apart at_i at_j same ep ad =
    let left = (drop_device r i).1 in
    let gone : get left.by_addr e.addr ≡ none =
      ground (arith, get-remove r.by_addr d.addr e.addr) in
    let stays : get left.by_id j ≡ some e = ground (arith, get-remove r.by_id i j) in
    let named : get left.by_endpoint e.endpoint ≡ some j = ground (
      arith,
      get-remove r.by_endpoint d.endpoint e.endpoint,
      v.indexed i d at_i,
      v.indexed j e at_j,
    ) in
    (
      gone,
      stays,
      record left { by_id = insert left.by_id j (refreshed e g now) },
      rw
          (
            ep,
            named,
            stays,
            register,
            register_known,
            moved_index,
            if_pos (addr_key.dec e.addr g.addr) (sym ad),
          )
          refl,
      gone,
    )
