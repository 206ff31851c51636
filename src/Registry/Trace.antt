-- ===== src/Registry/Trace.antt =====
-- The registry of src/registry.rs as a whole: the calls that the tasks of the server make, in any order.
-- The lock makes each call one step.
use smart_garden_gateway_lwm.Prelude.{
  ℕ, ◌+◌, ◌^◌, ◌<◌, ◌≤◌, ◌≡◌, refl, Option, List, [], ◌∷◌, Bytes, bytes_key, nat_key, arith,
  Outcome, ok, ◌>>=◌, length,
}
use smart_garden_gateway_lwm.Json.{Json}
use smart_garden_gateway_lwm.Model.{
  Instant, SocketAddr, addr_key, Registration, Token, PendingOperation,
}
use smart_garden_gateway_lwm.Registry
use smart_garden_gateway_lwm.Registry.{RegistryInner, new, register_new, register_known}
use smart_garden_gateway_lwm.Registry.Contact
use smart_garden_gateway_lwm.Registry.Contact.{renew_registration, set_device_offline}
use smart_garden_gateway_lwm.Registry.Operations.{
  drain_pending, place_in_flight, complete_in_flight,
}
use smart_garden_gateway_lwm.Registry.Queries.{merge_device_state_by_addr, restore_device_state}
use smart_garden_gateway_lwm.Registry.Sweep.{
  expire_stale, remove_by_addr, take_ping_candidates, timeout_in_flight,
}
use smart_garden_gateway_lwm.Registry.Valid.{IsValid}
use smart_garden_gateway_lwm.Registry.Registering.{register-Registered}
use smart_garden_gateway_lwm.Registry.Kept
use smart_garden_gateway_lwm.Registry.Removal.{
  expire_stale-IsValid, remove_by_addr-IsValid, next_id-expire_stale, next_id-remove_by_addr,
}
use smart_garden_gateway_lwm.Registry.Pings.{
  take_ping_candidates_lem, take_ping_candidates-IsValid, timeout_in_flight-IsValid,
}

-- A call that changes the registry, with the reading of the clock that it makes.
pub data Call : Type 0 where
  register : Registration → Instant → Call
  renew : SocketAddr → Option ℕ → Instant → Call
  touch : SocketAddr → Instant → Call
  offline : SocketAddr → Instant → Call
  ping_candidates : ℕ → ℕ → ℕ → Instant → Call
  drain : SocketAddr → Call
  place : SocketAddr → Token → PendingOperation → Call
  complete : SocketAddr → Token → Call
  expire : ℕ → Instant → Call
  timeout : ℕ → Instant → Call
  merge : SocketAddr → Json → Call
  remove : SocketAddr → Call
  restore_state : Bytes → Json → Call

pub perform : RegistryInner → Call → Outcome RegistryInner
perform r (register g now) = do (_, r') ← Registry.register r g now; ok r'
perform r (renew a lt now) = ok (renew_registration r a lt now)
perform r (touch a now) = do (_, r') ← Contact.touch r a now; ok r'
perform r (offline a now) = ok (set_device_offline r a now).1
perform r (ping_candidates off on most now) = ok (take_ping_candidates off on most now r).1
perform r (drain a) = do (_, r') ← drain_pending r a; ok r'
perform r (place a t op) = ok (place_in_flight r a t op)
perform r (complete a t) = ok (complete_in_flight r a t).1
perform r (expire grace now) = ok (expire_stale r grace now).1
perform r (timeout secs now) = ok (timeout_in_flight secs now r).1
perform r (merge a s) = do (_, r') ← merge_device_state_by_addr r a s; ok r'
perform r (remove a) = ok (remove_by_addr r a).1
perform r (restore_state e s) = ok (restore_device_state r e s)

pub perform_all : RegistryInner → List Call → Outcome RegistryInner
perform_all r [] = ok r
perform_all r (c ∷ calls) = do r' ← perform r c; perform_all r' calls

-- What a call leaves: a valid state, with at most one identifier more given out.
pub record Step (r r' : RegistryInner) : Type 0 where
  pub valid : IsValid r'
  pub next_id : r'.next_id ≤ r.next_id + 1

perform-Step :
    (r : RegistryInner) (c : Call)
    → IsValid r
    → r.next_id + 1 < 2 ^ 32
    → (r' : RegistryInner) × (perform r c ≡ ok r') × Step r r'
unfolding perform
perform-Step r (register g now) v room =
    let (r', runs, done) = register-Registered r g now v room in
    (r', rw runs refl, record { valid = done.valid; next_id = done.next_id })
perform-Step r (renew a lt now) v room = (
  _,
  refl,
  record {
    valid = Kept.renew_registration-IsValid r v a lt now;
    next_id = omega (arith, Kept.next_id-renew_registration r a lt now);
  },
)
perform-Step r (touch a now) v room =
    let (out, r', runs, valid, same) = Kept.touch-IsValid r v a now in
    (r', rw runs refl, record { valid = valid; next_id = omega arith })
perform-Step r (offline a now) v room = (
  _,
  refl,
  record {
    valid = Kept.set_device_offline-IsValid r v a now;
    next_id = omega (arith, Kept.next_id-set_device_offline r a now);
  },
)
perform-Step r (ping_candidates off on most now) v room = (
  _,
  refl,
  record {
    valid = take_ping_candidates-IsValid off on most r now v;
    next_id = rw take_ping_candidates_lem (omega arith);
  },
)
perform-Step r (drain a) v room =
    let (out, r', runs, valid, same) = Kept.drain_pending-IsValid r v a in
    (r', rw runs refl, record { valid = valid; next_id = omega arith })
perform-Step r (place a t op) v room = (
  _,
  refl,
  record {
    valid = Kept.place_in_flight-IsValid r v a t op;
    next_id = omega (arith, Kept.next_id-place_in_flight r a t op);
  },
)
perform-Step r (complete a t) v room = (
  _,
  refl,
  record {
    valid = Kept.complete_in_flight-IsValid r v a t;
    next_id = omega (arith, Kept.next_id-complete_in_flight r a t);
  },
)
perform-Step r (expire grace now) v room = (
  _,
  refl,
  record {
    valid = expire_stale-IsValid r grace now v;
    next_id = omega (arith, next_id-expire_stale r grace now);
  },
)
perform-Step r (timeout secs now) v room = (
  _,
  refl,
  record {
    valid = timeout_in_flight-IsValid r secs now v;
    next_id = unfold timeout_in_flight in omega arith;
  },
)
perform-Step r (merge a s) v room =
    let (out, r', runs, valid, same) = Kept.merge_device_state-IsValid r v a s in
    (r', rw runs refl, record { valid = valid; next_id = omega arith })
perform-Step r (remove a) v room = (
  _,
  refl,
  record {
    valid = remove_by_addr-IsValid r v a;
    next_id = omega (arith, next_id-remove_by_addr r a);
  },
)
perform-Step r (restore_state e s) v room = (
  _,
  refl,
  record {
    valid = Kept.restore_device_state-IsValid r v e s;
    next_id = omega (arith, Kept.next_id-restore_device_state r e s);
  },
)

-- From a valid state with an identifier to spare for each call, no sequence of calls panics, and the
-- state at its end is valid.
pub perform_all-IsValid :
    (r : RegistryInner) (calls : List Call)
    → IsValid r
    → r.next_id + length calls < 2 ^ 32
    → (r' : RegistryInner) × (perform_all r calls ≡ ok r') × IsValid r'
unfolding perform_all
perform_all-IsValid r [] v room = (r, refl, v)
perform_all-IsValid r (c ∷ calls) v room =
    let (r', runs, step) = perform-Step r c v (omega arith) in
    let (r'', rest, valid) =
      perform_all-IsValid r' calls step.valid (omega (arith, step.next_id)) in
    (r'', rw runs rest, valid)
