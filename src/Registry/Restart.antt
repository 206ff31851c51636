-- ===== src/Registry/Restart.antt =====
-- `snapshot` and `restore` of src/registry.rs: a restart brings the devices back.
use smart_garden_gateway_lwm.Prelude.{
  ℕ, ◌+◌, ◌-◌, ◌%◌, false, ◌<◌, ◌^◌, ◌≡◌, ◌≢◌, refl, Option, none, some, List, [], ◌∷◌, map,
  bytes_key, nat_key, arith, All, ap, ◌∙◌,
}
use smart_garden_gateway_lwm.Dict.{get, find, empty}
use smart_garden_gateway_lwm.Dict.Laws.{get-insert, get-empty}
use smart_garden_gateway_lwm.Dict.Unique.{Distinct, IsUnique, insert-IsUnique}
use smart_garden_gateway_lwm.Model.{Instant, elapsed, as_secs, DeviceId, addr_key, Device}
use smart_garden_gateway_lwm.Registry.{RegistryInner, new}
use smart_garden_gateway_lwm.Registry.Persisted.{
  DeviceSnapshot, snapshot_device, snapshot, restored_device, restore_one, restore,
  remaining_lifetime,
}
use smart_garden_gateway_lwm.Json.{object, done}
use smart_garden_gateway_lwm.Registry.Valid.{IsValid}
use smart_garden_gateway_lwm.Registry.Expiry.{HasOwnId, own_ids}

abbrev pub IsFree : RegistryInner → DeviceSnapshot → Type 0
IsFree r s = (get r.by_id s.id ≡ none) × (get r.by_endpoint s.endpoint ≡ none) × (s.id + 1 < 2 ^ 32)

abbrev pub Differ : DeviceSnapshot → DeviceSnapshot → Type 0
Differ s x = (x.id ≢ s.id) × (x.endpoint ≢ s.endpoint)

abbrev pub Apart : List DeviceSnapshot → Type 0
Apart [] = Unit
Apart (s ∷ rest) = All (Differ s) rest × Apart rest

module _ (now : Instant) where
  restore_one-IsValid :
      (r : RegistryInner) (s : DeviceSnapshot)
      → IsValid r
      → IsFree r s
      → IsValid (restore_one r s now)
  unfolding restore_one restored_device
  restore_one-IsValid r s v (free_id, free_name, room) = record {
    endpoints = λ e j h. ground (
      arith,
      get-insert r.by_endpoint s.endpoint e s.id,
      get-insert r.by_id s.id j (restored_device s now),
      v.endpoints e j,
    );
    addrs = λ a j h. ground (
      arith,
      get-insert r.by_addr s.addr a s.id,
      get-insert r.by_id s.id j (restored_device s now),
      v.addrs a j,
    );
    indexed = λ j x h. ground (
      arith,
      get-insert r.by_id s.id j (restored_device s now),
      get-insert r.by_endpoint s.endpoint x.endpoint s.id,
      v.indexed j x,
    );
    unique = insert-IsUnique r.by_id s.id (restored_device s now) v.unique;
  }

  still-IsFree :
      (r : RegistryInner) (s : DeviceSnapshot) (rest : List DeviceSnapshot)
      → All (Differ s) rest
      → All (IsFree r) rest
      → All (IsFree (restore_one r s now)) rest
  unfolding restore_one
  still-IsFree r s [] apart free = tt
  still-IsFree r s (x ∷ rest) ((other_id, other_name), apart) ((free_id, free_name, room), free) = (
    (
      ground (arith, get-insert r.by_id s.id x.id (restored_device s now)),
      ground (arith, get-insert r.by_endpoint s.endpoint x.endpoint s.id),
      room,
    ),
    still-IsFree r s rest apart free,
  )

  -- Snapshots with identifiers and endpoints that differ, and that a valid state has free, are restored
  -- to a valid state.
  pub restore-IsValid :
      (r : RegistryInner) (snapshots : List DeviceSnapshot)
      → IsValid r
      → Apart snapshots
      → All (IsFree r) snapshots
      → IsValid (restore r snapshots now)
  unfolding restore
  restore-IsValid r [] v apart free = v
  restore-IsValid r (s ∷ rest) v (differ, apart) (free_s, free) =
      restore-IsValid (restore_one r s now) rest (restore_one-IsValid r s v free_s) apart
        (still-IsFree r s rest differ free)

module _ (saved_at : Instant) (now_unix : ℕ) (now : Instant) where
  -- A device after a restart: offline since then, with the lifetime that was left when it was saved,
  -- seen last at the restart, and without state and operations.
  abbrev pub back : Device → Device
  back d = record {
    id = d.id;
    endpoint = d.endpoint;
    addr = d.addr;
    lifetime = d.lifetime - as_secs (elapsed saved_at d.last_registered_at) % 2 ^ 32;
    registered_at = now;
    last_registered_at = now;
    last_contact = now;
    objects = d.objects;
    object_versions = d.object_versions;
    lwm2m_version = d.lwm2m_version;
    binding_mode = d.binding_mode;
    state = object done;
    online = some false;
    offline_since = some now;
    last_ping_attempt = none;
    pending_ops = [];
    in_flight = empty;
  }

  abbrev pub back_from : Option Device → Option Device → Option Device
  back_from (some d) before = some (back d)
  back_from none before = before

  get-restore :
      (r : RegistryInner) (l : List (DeviceId × Device)) (j : DeviceId)
      → All HasOwnId l
      → Distinct l
      → get (restore r (map (snapshot_device saved_at now_unix) (map (λ e. e.1) l)) now).by_id j
        ≡ back_from (find j l) (get r.by_id j)
  unfolding restore restore_one find snapshot_device restored_device remaining_lifetime
  get-restore r [] j own u = refl
  get-restore r ((id, d) ∷ l) j (own, owns) (fresh, u) = ground (
    arith,
    get-restore (restore_one r (snapshot_device saved_at now_unix d) now) l j owns u,
    get-insert r.by_id d.id j (back d),
  )

  -- After a restart each identifier has the device that a valid state had there, with its endpoint,
  -- address, objects and versions, its lifetime cut to what was left and the device offline; there are no others.
  pub get-restore-snapshot :
      (r : RegistryInner) (j : DeviceId)
      → IsValid r
      → get (restore new (snapshot r saved_at now_unix) now).by_id j
        ≡ back_from (get r.by_id j) none
  unfolding snapshot get IsUnique new
  get-restore-snapshot r j v =
      get-restore new r.by_id.entries j (own_ids r v) v.unique
      ∙ ap (back_from (get r.by_id j)) (get-empty {V = Device} j)
