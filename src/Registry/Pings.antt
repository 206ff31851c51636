-- ===== src/Registry/Pings.antt =====
-- `take_ping_candidates` and `timeout_in_flight` of src/registry.rs: one pass is a change of each device
-- on its own; which devices are pinged, and how often.
use mathlib.Core.Option
use smart_garden_gateway_lwm.Prelude.{
  ℕ, ◌-◌, ◌<◌, ◌≡◌, refl, ap, true, false, Option, none, some, List, [], ◌∷◌, map, Bytes, bytes_key,
  nat_key, arith, keep_if, Bool-cases, inl, inr, if◌then◌else◌, ◌∙◌, sym,
}
use smart_garden_gateway_lwm.Dict.{get, values, map_list, map_values}
use smart_garden_gateway_lwm.Dict.Laws.{get-map_values}
use smart_garden_gateway_lwm.Dict.Unique.{map_values-IsUnique}
use smart_garden_gateway_lwm.Model.{Instant, DeviceId, SocketAddr, addr_key, Device}
use smart_garden_gateway_lwm.Registry.{RegistryInner}
use smart_garden_gateway_lwm.Registry.Sweep.{
  needs_ping, ping_pass, take_ping_candidates, overdue_tokens, fire_all, timeout_pass,
  timeout_in_flight,
}
use smart_garden_gateway_lwm.Registry.Valid.{IsValid}

-- A pass that keeps identifiers, endpoints and addresses keeps the invariant.
map_values-IsValid :
    (r : RegistryInner) (f : Device → Device)
    → ((d : Device) → (f d).id ≡ d.id)
    → ((d : Device) → (f d).endpoint ≡ d.endpoint)
    → ((d : Device) → (f d).addr ≡ d.addr)
    → IsValid r
    → IsValid (record r { by_id = map_values f r.by_id })
map_values-IsValid r f ids names places v = record {
  endpoints = λ e j h. rw get-map_values (at_endpoint (get r.by_id j) e (v.endpoints e j h));
  addrs = λ a j h. rw get-map_values (at_addr (get r.by_id j) a (v.addrs a j h));
  indexed = λ j x h. at_index (get r.by_id j) j x refl (sym (get-map_values r.by_id f j) ∙ h);
  unique = map_values-IsUnique r.by_id f v.unique;
}
  where
    at_endpoint :
        (o : Option Device) (e : Bytes)
        → Option.map (λ d. d.endpoint) o ≡ some e
        → Option.map (λ d. d.endpoint) (Option.map f o) ≡ some e
    at_endpoint none e h = h
    at_endpoint (some d) e h = ap some (names d) ∙ h

    at_addr :
        (o : Option Device) (a : SocketAddr)
        → Option.map (λ d. d.addr) o ≡ some a
        → Option.map (λ d. d.addr) (Option.map f o) ≡ some a
    at_addr none a h = h
    at_addr (some d) a h = ap some (places d) ∙ h

    at_index :
        (o : Option Device) (j : DeviceId) (x : Device)
        → get r.by_id j ≡ o
        → Option.map f o ≡ some x
        → (x.id ≡ j) × (get r.by_endpoint x.endpoint ≡ some j) × (j < r.next_id)
    at_index none j x at h = absurd (ground arith)
    at_index (some d) j x at h = ground (arith, v.indexed j d at, ids d, names d)

module _ (offline_interval online_interval offline_max_duration : ℕ) where
  -- What a ping leaves in a device that is due, and any other device as it is.
  pub pinged : Instant → Device → Device
  pinged now d =
      if needs_ping offline_interval online_interval offline_max_duration now d
      then record d { last_ping_attempt = some now }
      else d

  ping_pass_lem :
      (now : Instant) (l : List (DeviceId × Device))
      → ping_pass offline_interval online_interval offline_max_duration now l ≡ (
        map
            (λ d. (d.endpoint, d.addr))
            (keep_if
              (needs_ping offline_interval online_interval offline_max_duration now)
              (map (λ e. e.1) l)),
        map_list (pinged now) l,
      )
  unfolding ping_pass pinged map_list
  ping_pass_lem now [] = refl
  ping_pass_lem now ((id, d) ∷ l) =
      elim (Bool-cases (needs_ping offline_interval online_interval offline_max_duration now d)) [
        | inl due ↦ rw (ping_pass_lem now l, due) refl
        | inr idle ↦ rw (ping_pass_lem now l, idle) refl
      ]

  -- `take_ping_candidates` lists the endpoint and the address of each device that is due, in the order of
  -- the iteration, and stamps those devices with the time; no other device and no index changes.
  pub take_ping_candidates_lem :
      (r : RegistryInner) (now : Instant)
      → take_ping_candidates offline_interval online_interval offline_max_duration now r ≡ (
        map
            (λ d. (d.endpoint, d.addr))
            (keep_if
              (needs_ping offline_interval online_interval offline_max_duration now)
              (values r.by_id)),
        record r { by_id = map_values (pinged now) r.by_id },
      )
  unfolding take_ping_candidates map_values
  take_ping_candidates_lem r now = rw (ping_pass_lem now r.by_id.entries) refl

  pub take_ping_candidates-IsValid :
      (r : RegistryInner) (now : Instant)
      → IsValid r
      → IsValid (take_ping_candidates offline_interval online_interval offline_max_duration now r).1
  take_ping_candidates-IsValid r now v = rw take_ping_candidates_lem (
      map_values-IsValid r (pinged now) (λ d. unfold pinged in ground arith)
        (λ d. unfold pinged in ground arith) (λ d. unfold pinged in ground arith) v)

  needs_ping-pinged :
      (d : Device) (now later : Instant)
      → needs_ping offline_interval online_interval offline_max_duration now d ≡ true
      → later - now < offline_interval
      → later - now < online_interval
      → needs_ping offline_interval online_interval offline_max_duration later (pinged now d)
        ≡ false
  unfolding pinged needs_ping
  needs_ping-pinged d now later due short_offline short_online = ground arith

  -- A device that `take_ping_candidates` finds due is still there behind it, with its endpoint and its
  -- address, and is not due again before the shorter of the two intervals has passed.
  pub take_ping_candidates-once :
      (r : RegistryInner) (j : DeviceId) (d : Device) (now later : Instant)
      → get r.by_id j ≡ some d
      → needs_ping offline_interval online_interval offline_max_duration now d ≡ true
      → later - now < offline_interval
      → later - now < online_interval
      → let out =
          take_ping_candidates offline_interval online_interval offline_max_duration now r in
        (d' : Device) × ((get out.1.by_id j ≡ some d')
          × ((d'.endpoint ≡ d.endpoint)
              × ((d'.addr ≡ d.addr)
                  × (needs_ping offline_interval online_interval offline_max_duration later d'
                      ≡ false))))
  unfolding pinged
  take_ping_candidates-once r j d now later at due short_offline short_online = (
    pinged now d,
    (
      ap (λ o. get o.1.by_id j) (take_ping_candidates_lem r now)
          ∙ get-map_values r.by_id (pinged now) j
          ∙ ap (Option.map (pinged now)) at,
      (ground arith, (ground arith, needs_ping-pinged d now later due short_offline short_online)),
    ),
  )

-- The devices after the sweep of the operations in flight.
pub swept : ℕ → Instant → Device → Device
swept max_secs now d = record d {
  in_flight =
      (fire_all max_secs now d.in_flight (overdue_tokens max_secs now d.in_flight.entries)).1;
}

timeout_pass_lem :
    (max_secs : ℕ) (now : Instant) (l : List (DeviceId × Device))
    → (timeout_pass max_secs now l).1 ≡ map_list (swept max_secs now) l
unfolding timeout_pass swept map_list
timeout_pass_lem max_secs now [] = refl
timeout_pass_lem max_secs now ((id, d) ∷ l) =
    ap (◌∷◌ (id, swept max_secs now d)) (timeout_pass_lem max_secs now l)

pub timeout_in_flight-by_id :
    (r : RegistryInner) (max_secs : ℕ) (now : Instant)
    → (timeout_in_flight max_secs now r).1.by_id ≡ map_values (swept max_secs now) r.by_id
unfolding timeout_in_flight map_values
timeout_in_flight-by_id r max_secs now =
    ap (λ l. record { entries = l }) (timeout_pass_lem max_secs now r.by_id.entries)

pub timeout_in_flight-IsValid :
    (r : RegistryInner) (max_secs : ℕ) (now : Instant)
    → IsValid r
    → IsValid (timeout_in_flight max_secs now r).1
unfolding timeout_in_flight
timeout_in_flight-IsValid r max_secs now v = rw (timeout_pass_lem max_secs now r.by_id.entries) (
    unfold map_values in
    unfold swept in map_values-IsValid r (swept max_secs now) (λ d. refl) (λ d. refl) (λ d. refl) v)
