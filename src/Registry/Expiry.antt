-- ===== src/Registry/Expiry.antt =====
-- `expire_stale` of src/registry.rs against its specification: exactly the expired devices go, each
-- with its replies.
use smart_garden_gateway_lwm.Prelude.{
  ℕ, ◌≡◌, refl, Bool, false, ◌||◌, Option, none, some, List, [], ◌∷◌, map, nat_key, arith, inl, inr,
  Elem, All, keep_if, Bool-cases, ◌==◌, if◌then◌else◌,
}
use smart_garden_gateway_lwm.Dict.{get, find}
use smart_garden_gateway_lwm.Dict.Laws.{get-remove}
use smart_garden_gateway_lwm.Dict.Unique.{Distinct, IsUnique, get_of_Elem}
use smart_garden_gateway_lwm.Model.{Instant, DeviceId, Device, is_expired}
use smart_garden_gateway_lwm.Registry.{RegistryInner}
use smart_garden_gateway_lwm.Registry.Sweep.{drop_device, drop_all, expired_ids, expire_stale}
use smart_garden_gateway_lwm.Registry.Valid.{IsValid}

abbrev contains : List DeviceId → DeviceId → Bool
contains [] j = false
contains (id ∷ ids) j = j == id || contains ids j

-- A listed identifier is gone, and every other is as before.
get-drop_all :
    (r : RegistryInner) (ids : List DeviceId) (j : DeviceId)
    → get (drop_all r ids).1.by_id j ≡ (if contains ids j then none else get r.by_id j)
unfolding drop_all drop_device
get-drop_all r [] j = refl
get-drop_all r (id ∷ ids) j =
    ground (arith, get-drop_all (drop_device r id).1 ids j, get-remove r.by_id id j)

abbrev pub kept_by : (Device → Bool) → Option Device → Option Device
kept_by p none = none
kept_by p (some d) = if p d then none else some d

abbrev pub HasOwnId : DeviceId × Device → Type 0
HasOwnId e = e.1.id ≡ e.0

abbrev picked : (Device → Bool) → Option Device → Bool
picked p none = false
picked p (some d) = p d

contains-keep_if :
    (p : Device → Bool) (l : List (DeviceId × Device)) (j : DeviceId)
    → All HasOwnId l
    → Distinct l
    → contains (map (λ d. d.id) (keep_if p (map (λ e. e.1) l))) j ≡ picked p (find j l)
unfolding find
contains-keep_if p [] j own u = refl
contains-keep_if p ((id, d) ∷ l) j (own, owns) (fresh, u) = elim (Bool-cases (p d)) [
  | inl yes_p ↦ rw yes_p (ground (arith, contains-keep_if p l j owns u))
  | inr no_p ↦ rw no_p (ground (arith, contains-keep_if p l j owns u))
]

pub All-of_Elem : {A : Type 0} {P : A → Type 0} (l : List A) → ((x : A) → Elem x l → P x) → All P l
All-of_Elem [] h = tt
All-of_Elem (x ∷ l) h = (h x (inl refl), All-of_Elem l (λ y e. h y (inr e)))

pub own_ids : (r : RegistryInner) → IsValid r → All HasOwnId r.by_id.entries
own_ids r v =
    All-of_Elem r.by_id.entries
      (λ e m. (v.indexed e.0 e.1 (get_of_Elem r.by_id e.0 e.1 v.unique m)).0)

-- From a valid state, `expire_stale` leaves at each identifier the device that was there if it has not
-- expired, and nothing if it has.
pub get-expire_stale :
    (r : RegistryInner) (grace : ℕ) (now : Instant) (j : DeviceId)
    → IsValid r
    → get (expire_stale r grace now).1.by_id j
      ≡ kept_by (λ d. is_expired d grace now) (get r.by_id j)
unfolding expire_stale expired_ids get IsUnique
get-expire_stale r grace now j v = ground (
  arith,
  get-drop_all r (expired_ids r grace now) j,
  contains-keep_if (λ d. is_expired d grace now) r.by_id.entries j (own_ids r v) v.unique,
)
