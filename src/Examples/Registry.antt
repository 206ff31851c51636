-- ===== src/Examples/Registry.antt =====
-- The registry (src/registry.rs) at concrete devices.
use smart_garden_gateway_lwm.Prelude.{
  true, ◌+◌, ◌≡◌, refl, none, some, false, List, [], ◌∷◌, map, bytes, bytes_key, nat_key, arith, ok,
  keep_if, list_dec, ℕ_discrete,
}
use smart_garden_gateway_lwm.Dict.{get, insert, remove, find, empty, values, map_values, map_list}
use smart_garden_gateway_lwm.Model.{
  Device, Instant, SocketAddr, v6, addr_key, Registration, new_device, is_expired,
}
use smart_garden_gateway_lwm.Registry
use smart_garden_gateway_lwm.Registry.{
  RegistryInner, new, register, register_new, register_known, following_id, moved_index, refreshed,
}
use smart_garden_gateway_lwm.Registry.Sweep.{
  expire_stale, drop_device, needs_ping, take_ping_candidates,
}
use smart_garden_gateway_lwm.Registry.Persisted.{snapshot, restore, snapshot_device}
use smart_garden_gateway_lwm.Bootstrap
use smart_garden_gateway_lwm.Housekeeping.{HousekeepingState, tick}
use smart_garden_gateway_lwm.Housekeeping.Ticks.{is_there, tick-IsValid}
use smart_garden_gateway_lwm.Registry.Valid.{IsValid, new-IsValid}
use smart_garden_gateway_lwm.Registry.Registering.{
  Registered, assigned_id, register-Registered, register_new-IsValid,
}
use smart_garden_gateway_lwm.Registry.Expiry.{get-expire_stale, kept_by}
use smart_garden_gateway_lwm.Registry.Replies.{
  report-expire_stale, expired_devices, timeout_reply, all_operations,
}
use smart_garden_gateway_lwm.Registry.Restart.{get-restore-snapshot, restore-IsValid, back_from}
use smart_garden_gateway_lwm.Registry.SharedAddress.{shared_address_lost}
use smart_garden_gateway_lwm.Registry.Pings.{
  take_ping_candidates_lem, take_ping_candidates-once, pinged,
}
use smart_garden_gateway_lwm.Registry.Trace.{Call, perform_all, perform_all-IsValid}

abbrev home : SocketAddr
home = v6 1 5683 0 2

abbrev pump : Registration
pump = record {
  endpoint = bytes "3034F8319C00754000000097";
  addr = home;
  lifetime = 86400;
  objects = bytes "3/0" ∷ [];
  object_versions = empty;
  lwm2m_version = bytes "1.1";
  binding_mode = bytes "U";
}

abbrev sensor : Registration
sensor = record pump { endpoint = bytes "AABBCCDD00112233" }

abbrev day : Instant
day = 86400000000000

abbrev calls : List Call
calls =
    Call.register pump 5
    ∷ Call.touch home 9
    ∷ Call.register sensor 20
    ∷ Call.expire 30 day
    ∷ Call.remove home
    ∷ []

perform_all_example : (r : RegistryInner) × (perform_all new calls ≡ ok r) × IsValid r
unfolding new
perform_all_example = perform_all-IsValid new calls new-IsValid (omega arith)

register_example :
    (r : RegistryInner) × (register new pump 5 ≡ ok (assigned_id new pump, r))
    × Registered new pump 5 (assigned_id new pump) r
unfolding new
register_example = register-Registered new pump 5 new-IsValid (omega arith)

-- All that a run at concrete input opens.
opened : Unit {0}
unfolding new register register_new register_known following_id moved_index refreshed get insert
    empty list_dec bytes_key ℕ_discrete new_device addr_key drop_device remove is_expired
    Registry.Sweep.expired_ids find needs_ping map_values map_list snapshot snapshot_device
opened = tt

-- Two devices at one address, as registrations one after the other leave them.
abbrev one : RegistryInner
one = (register_new new pump 5).1

abbrev both : RegistryInner
both = (register_new one sensor 20).1

one-IsValid : IsValid one
unfolding opened
one-IsValid = register_new-IsValid new pump 5 new-IsValid refl (omega arith)

both-IsValid : IsValid both
unfolding opened
both-IsValid = register_new-IsValid one sensor 20 one-IsValid refl (omega arith)

test_register_again :
    register both (record pump { lifetime = 60 }) 30
    ≡ ok (
      1,
      (record both {
        by_id =
            insert both.by_id 1
              (refreshed (new_device 1 pump 5) (record pump { lifetime = 60 }) 30);
      }),
    )
unfolding opened
test_register_again = refl

get-expire_stale_example :
    get (expire_stale both 30 day).1.by_id 1 ≡ kept_by (λ d. is_expired d 30 day) (get both.by_id 1)
get-expire_stale_example = get-expire_stale both 30 day 1 both-IsValid

report-expire_stale_example : (expire_stale both 30 (day + day)).0 ≡ (
  map (λ d. d.endpoint) (expired_devices both 30 (day + day)),
  map timeout_reply (all_operations (expired_devices both 30 (day + day))),
)
report-expire_stale_example = report-expire_stale both 30 (day + day) both-IsValid

get-restore-snapshot_example :
    get (restore new (snapshot both day 1700000000) 3).by_id 2
    ≡ back_from day 1700000000 3 (get both.by_id 2) none
get-restore-snapshot_example = get-restore-snapshot day 1700000000 3 both 2 both-IsValid

restore-IsValid_example :
    IsValid (restore new (snapshot_device day 1700000000 (new_device 7 pump 5) ∷ []) 3)
unfolding opened
restore-IsValid_example =
    restore-IsValid 3 new (snapshot_device day 1700000000 (new_device 7 pump 5) ∷ []) new-IsValid
      (tt, tt) ((refl, refl, omega arith), tt)

shared_address_lost_example :
    (get (drop_device both 1).1.by_addr home ≡ none)
    × (get (drop_device both 1).1.by_id 2 ≡ some (new_device 2 sensor 20))
    × (r : RegistryInner) × (register (drop_device both 1).1 sensor 40 ≡ ok (2, r))
    × (get r.by_addr home ≡ none)
unfolding opened
shared_address_lost_example =
    shared_address_lost both 1 2 (new_device 1 pump 5) (new_device 2 sensor 20) sensor 40
      both-IsValid (omega arith) refl refl refl refl refl

take_ping_candidates_example : take_ping_candidates 900 9000 21600 10000 both ≡ (
  map (λ d. (d.endpoint, d.addr)) (keep_if (needs_ping 900 9000 21600 10000) (values both.by_id)),
  record both { by_id = map_values (pinged 900 9000 21600 10000) both.by_id },
)
take_ping_candidates_example = take_ping_candidates_lem 900 9000 21600 both 10000

first_of_both : get both.by_id 1 ≡ some (new_device 1 pump 5)
unfolding opened
first_of_both = refl

due_now : needs_ping 900 9000 21600 10000 (new_device 1 pump 5) ≡ true
unfolding opened
due_now = refl

take_ping_candidates-once_example :
    let out = take_ping_candidates 900 9000 21600 10000 both in
    (d' : Device) × ((get out.1.by_id 1 ≡ some d')
      × ((d'.endpoint ≡ pump.endpoint)
          × ((d'.addr ≡ home) × (needs_ping 900 9000 21600 10800 d' ≡ false))))
unfolding new_device
take_ping_candidates-once_example =
    take_ping_candidates-once 900 9000 21600 both 1 (new_device 1 pump 5) 10000 10800 first_of_both
      due_now (omega arith) (omega arith)

abbrev at_start : HousekeepingState
unfolding Bootstrap.new
at_start = record {
  registry = both;
  bootstrap = Bootstrap.new 0;
  next_ping_op_id = 2147483648;
  next_channel = 0;
}

tick-IsValid_example :
    IsValid (tick at_start day).1.registry
    × (is_there (get (tick at_start day).1.registry.by_id 1)
        ≡ is_there (kept_by (λ d. is_expired d 30 day) (get both.by_id 1)))
unfolding at_start
tick-IsValid_example = tick-IsValid at_start day 1 both-IsValid
