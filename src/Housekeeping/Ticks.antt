-- ===== src/Housekeeping/Ticks.antt =====
-- src/housekeeping.rs: which devices a tick leaves.
use mathlib.Core.Option
use smart_garden_gateway_lwm.Prelude.{
  ℕ, ◌≡◌, refl, ap, ◌∙◌, Bool, true, false, Option, none, some, nat_key,
}
use smart_garden_gateway_lwm.Dict.{get}
use smart_garden_gateway_lwm.Dict.Laws.{get-map_values}
use smart_garden_gateway_lwm.Model.{Instant, DeviceId, Device, is_expired}
use smart_garden_gateway_lwm.Registry.{RegistryInner}
use smart_garden_gateway_lwm.Registry.Valid.{IsValid}
use smart_garden_gateway_lwm.Registry.Sweep
use smart_garden_gateway_lwm.Registry.Sweep.{take_ping_candidates, timeout_in_flight}
use smart_garden_gateway_lwm.Registry.Removal.{expire_stale-IsValid}
use smart_garden_gateway_lwm.Registry.Expiry.{kept_by, get-expire_stale}
use smart_garden_gateway_lwm.Registry.Pings.{
  take_ping_candidates_lem, take_ping_candidates-IsValid, timeout_in_flight-IsValid,
  timeout_in_flight-by_id, swept, pinged,
}
use smart_garden_gateway_lwm.Housekeeping.{HousekeepingState, tick}

-- Whether there is a device at an identifier.
abbrev pub is_there : Option Device → Bool
is_there none = false
is_there (some d) = true

is_there-map : (f : Device → Device) (o : Option Device) → is_there (Option.map f o) ≡ is_there o
is_there-map f none = refl
is_there-map f (some d) = refl

take_ping_candidates-there :
    (off on most : ℕ) (r : RegistryInner) (now : Instant) (j : DeviceId)
    → is_there (get (take_ping_candidates off on most now r).1.by_id j) ≡ is_there (get r.by_id j)
take_ping_candidates-there off on most r now j =
    ap (λ c. is_there (get c.1.by_id j)) (take_ping_candidates_lem off on most r now)
    ∙ ap is_there (get-map_values r.by_id (pinged off on most now) j)
    ∙ is_there-map (pinged off on most now) (get r.by_id j)

timeout_in_flight-there :
    (r : RegistryInner) (max_secs : ℕ) (now : Instant) (j : DeviceId)
    → is_there (get (timeout_in_flight max_secs now r).1.by_id j) ≡ is_there (get r.by_id j)
timeout_in_flight-there r max_secs now j =
    ap (λ d. is_there (get d j)) (timeout_in_flight-by_id r max_secs now)
    ∙ ap is_there (get-map_values r.by_id (swept max_secs now) j)
    ∙ is_there-map (swept max_secs now) (get r.by_id j)

-- From a registry with consistent indices, a tick leaves one, in which there is a device at an
-- identifier just when there was one whose lifetime and grace period of 30 seconds are not over: a
-- device that does not renew its registration is gone with the first tick after that, and no other
-- device goes.
pub tick-IsValid :
    (s : HousekeepingState) (now : Instant) (j : DeviceId)
    → IsValid s.registry
    → IsValid (tick s now).1.registry
      × (is_there (get (tick s now).1.registry.by_id j)
          ≡ is_there (kept_by (λ d. is_expired d 30 now) (get s.registry.by_id j)))
unfolding tick
tick-IsValid s now j v =
    let r1 = (Sweep.expire_stale s.registry 30 now).1 in
    let r2 = (timeout_in_flight 60 now r1).1 in
    let v1 = expire_stale-IsValid s.registry 30 now v in
    let v2 = timeout_in_flight-IsValid r1 60 now v1 in
    (
      take_ping_candidates-IsValid _ _ _ r2 now v2,
      take_ping_candidates-there _ _ _ r2 now j
          ∙ timeout_in_flight-there r1 60 now j
          ∙ ap is_there (get-expire_stale s.registry 30 now j v),
    )
