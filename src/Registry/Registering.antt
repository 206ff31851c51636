-- ===== src/Registry/Registering.antt =====
-- `register` keeps the invariant and indexes the device.
use mathlib.Core.Option
use smart_garden_gateway_lwm.Prelude.{
  Bytes, ap, ◌∙◌, some, ◌+◌, ◌<◌, ◌≤◌, ◌^◌, ◌≡◌, ◌≢◌, refl, none, bytes_key, nat_key, arith,
  Option-cases, inl, inr, Returns, ok,
}
use smart_garden_gateway_lwm.Dict.{get, insert, remove}
use smart_garden_gateway_lwm.Dict.Laws.{get-insert, get-remove}
use smart_garden_gateway_lwm.Dict.Unique.{insert-IsUnique}
use smart_garden_gateway_lwm.Model.{
  Instant, SocketAddr, DeviceId, addr_key, Device, Registration, new_device,
}
use smart_garden_gateway_lwm.Registry.{
  RegistryInner, refreshed, moved_index, register_known, register_new, register, following_id,
}
use smart_garden_gateway_lwm.Registry.Valid.{IsValid, endpoint_of, addr_of}

following_id-eq : (id : DeviceId) → id + 1 < 2 ^ 32 → following_id id ≡ id + 1
unfolding following_id
following_id-eq id h = omega arith

module _ (r : RegistryInner) (g : Registration) where
  -- An endpoint that is known keeps its identifier, and any other gets the next one.
  abbrev pub assigned_id : DeviceId
  assigned_id = elim (get r.by_endpoint g.endpoint) [ none ↦ r.next_id | some id ↦ id ]

-- What a device has declared of itself.
abbrev pub declared : Device → Registration
declared d = record {
  endpoint = d.endpoint;
  addr = d.addr;
  lifetime = d.lifetime;
  objects = d.objects;
  object_versions = d.object_versions;
  lwm2m_version = d.lwm2m_version;
  binding_mode = d.binding_mode;
}

module _ (r : RegistryInner) (g : Registration) (now : Instant) where
  -- Of a device that is registered: what it declared, when it was seen, and the indices.
  pub record Registered (id : DeviceId) (r' : RegistryInner) : Type 0 where
    pub valid : IsValid r'
    pub endpoint : get r'.by_endpoint g.endpoint ≡ some id
    pub endpoint_at : endpoint_of r' id ≡ some g.endpoint
    pub addr_at : addr_of r' id ≡ some g.addr
    pub declared_at : Option.map declared (get r'.by_id id) ≡ some g
    pub seen : Option.map (λ d. d.last_registered_at) (get r'.by_id id) ≡ some now
    pub indexed_at : addr_of r id ≢ some g.addr → get r'.by_addr g.addr ≡ some id
    pub kept_index : addr_of r id ≡ some g.addr → get r'.by_addr g.addr ≡ get r.by_addr g.addr
    pub left : (a : SocketAddr) → addr_of r id ≡ some a → a ≢ g.addr → get r'.by_addr a ≡ none
    pub other_addrs :
        (a : SocketAddr) → a ≢ g.addr → addr_of r id ≢ some a → get r'.by_addr a ≡ get r.by_addr a
    pub other_endpoints : (e : Bytes) → e ≢ g.endpoint → get r'.by_endpoint e ≡ get r.by_endpoint e
    pub next_id : r'.next_id ≤ r.next_id + 1
    pub others : (j : DeviceId) → j ≢ id → get r'.by_id j ≡ get r.by_id j

module _ (r : RegistryInner) (g : Registration) (now : Instant) (v : IsValid r) where
  -- The next identifier is free.
  get-next_id : get r.by_id r.next_id ≡ none
  get-next_id = elim (Option-cases (get r.by_id r.next_id)) [
    | inl free ↦ free
    | inr (d, taken) ↦ absurd (omega (arith, (v.indexed r.next_id d taken).2))
  ]

  pub register_new-IsValid :
      get r.by_endpoint g.endpoint ≡ none
      → r.next_id + 1 < 2 ^ 32
      → IsValid (register_new r g now).1
  unfolding register_new new_device
  register_new-IsValid absent room = record {
    endpoints = λ e j h. ground (
      arith,
      get-insert r.by_endpoint g.endpoint e r.next_id,
      get-insert r.by_id r.next_id j (new_device r.next_id g now),
      v.endpoints e j,
      get-next_id,
    );
    addrs = λ a j h. ground (
      arith,
      get-insert r.by_addr g.addr a r.next_id,
      get-insert r.by_id r.next_id j (new_device r.next_id g now),
      v.addrs a j,
      get-next_id,
    );
    indexed = λ j x h. ground (
      arith,
      get-insert r.by_id r.next_id j (new_device r.next_id g now),
      get-insert r.by_endpoint g.endpoint x.endpoint r.next_id,
      v.indexed j x,
      following_id-eq r.next_id room,
    );
    unique = insert-IsUnique r.by_id r.next_id (new_device r.next_id g now) v.unique;
  }

  register_known-IsValid :
      (id : DeviceId) (old : Device)
      → get r.by_endpoint g.endpoint ≡ some id
      → get r.by_id id ≡ some old
      → Returns (register_known r id g now) (λ out. IsValid out.1)
  unfolding register_known refreshed moved_index
  register_known-IsValid id old known found = rw found (record {
    endpoints =
        λ e j h. ground (arith, get-insert r.by_id id j (refreshed old g now), v.endpoints e j);
    addrs = λ a j h. ground (
      arith,
      get-insert (remove r.by_addr old.addr) g.addr a id,
      get-remove r.by_addr old.addr a,
      get-insert r.by_id id j (refreshed old g now),
      v.addrs a j,
    );
    indexed = λ j x h.
        ground
          (arith, get-insert r.by_id id j (refreshed old g now), v.indexed id old, v.indexed j x);
    unique = insert-IsUnique r.by_id id (refreshed old g now) v.unique;
  })

  register_new-Registered :
      get r.by_endpoint g.endpoint ≡ none
      → r.next_id + 1 < 2 ^ 32
      → Registered r g now r.next_id (register_new r g now).1
  unfolding register_new new_device
  register_new-Registered absent room =
      let new_at : get (insert r.by_id r.next_id (new_device r.next_id g now)) r.next_id
          ≡ some (new_device r.next_id g now) =
        ground (arith, get-insert r.by_id r.next_id r.next_id (new_device r.next_id g now)) in
      record {
        valid = register_new-IsValid absent room;
        endpoint = ground (arith, get-insert r.by_endpoint g.endpoint g.endpoint r.next_id);
        endpoint_at = ground (arith, new_at);
        addr_at = ground (arith, new_at);
        declared_at = ap (Option.map declared) new_at;
        seen = ground (arith, new_at);
        indexed_at = λ m. ground (arith, get-insert r.by_addr g.addr g.addr r.next_id);
        kept_index = λ m. absurd (ground (arith, get-next_id));
        left = λ a m n. absurd (ground (arith, get-next_id));
        other_addrs = λ a n m. ground (arith, get-insert r.by_addr g.addr a r.next_id);
        other_endpoints = λ e n. ground (arith, get-insert r.by_endpoint g.endpoint e r.next_id);
        next_id = omega (arith, following_id-eq r.next_id room);
        others = λ j n. ground (arith, get-insert r.by_id r.next_id j (new_device r.next_id g now));
      }

  register_known-Registered :
      (id : DeviceId) (old : Device)
      → get r.by_endpoint g.endpoint ≡ some id
      → get r.by_id id ≡ some old
      → (r' : RegistryInner) × (register_known r id g now ≡ ok (id, r')) × Registered r g now id r'
  unfolding register_known refreshed moved_index
  register_known-Registered id old known found =
      let new_at : get (insert r.by_id id (refreshed old g now)) id ≡ some (refreshed old g now) =
        ground (arith, get-insert r.by_id id id (refreshed old g now)) in
      let same_endpoint : old.endpoint ≡ g.endpoint =
        ground (arith, v.endpoints g.endpoint id known) in
      (
        record r {
          by_id = insert r.by_id id (refreshed old g now);
          by_addr = moved_index r.by_addr old.addr g.addr id;
        },
        rw found,
        record {
          valid = rw found at (register_known-IsValid id old known found);
          endpoint = known;
          endpoint_at = ground (arith, new_at, v.endpoints g.endpoint id known);
          addr_at = ground (arith, new_at);
          declared_at =
              ap (Option.map declared) new_at
              ∙ ap (λ e. some (record g { endpoint = e })) same_endpoint;
          seen = ground (arith, new_at);
          indexed_at = λ m. ground (arith, get-insert (remove r.by_addr old.addr) g.addr g.addr id);
          kept_index = λ m. ground arith;
          left = λ a m n. ground (
            arith,
            get-insert (remove r.by_addr old.addr) g.addr a id,
            get-remove r.by_addr old.addr a,
          );
          other_addrs = λ a n m. ground (
            arith,
            get-insert (remove r.by_addr old.addr) g.addr a id,
            get-remove r.by_addr old.addr a,
          );
          other_endpoints = λ e n. refl;
          next_id = omega arith;
          others = λ j n. ground (arith, get-insert r.by_id id j (refreshed old g now));
        },
      )

  known_device :
      (id : DeviceId)
      → get r.by_endpoint g.endpoint ≡ some id
      → (d : Device) × (get r.by_id id ≡ some d)
  known_device id known = elim (Option-cases (get r.by_id id)) [
    | inl absent ↦ absurd (ground (arith, v.endpoints g.endpoint id known))
    | inr found ↦ found
  ]

  -- From a valid state with an identifier to spare, `register` does not panic: an endpoint that is
  -- known keeps its identifier and any other gets the next one. The device then has all that the registration
  -- declares and counts as registered now, its endpoint is indexed, and the state is valid. An address
  -- that is new to the device is indexed, the one it had before is not any more, and an address that
  -- it keeps is indexed as before. The other identifiers, endpoints and addresses are as before.
  pub register-Registered :
      r.next_id + 1 < 2 ^ 32
      → (r' : RegistryInner) × (register r g now ≡ ok (assigned_id r g, r'))
        × Registered r g now (assigned_id r g) r'
  unfolding register
  register-Registered room = elim (Option-cases (get r.by_endpoint g.endpoint)) [
    | inl absent ↦
        rw (absent, register, assigned_id)
          ((register_new r g now).1, refl, register_new-Registered absent room)
    | inr (id, known) ↦
        let (d, found) = known_device id known in
        let (r', runs, registered) = register_known-Registered id d known found in
        rw (known, register, assigned_id) (r', runs, registered)
  ]
