-- ===== src/Registry/Sweep.antt =====
-- src/registry.rs: the periodic sweeps over all devices, removal, and the pings that are due. A reply
-- that is fired is a pair of the sender and what it sends.
use smart_garden_gateway_lwm.Prelude.{
  ℕ, Bool, true, false, ◌&&◌, Option, none, some, List, [], ◌∷◌, ◌++◌, map, Bytes, bytes_key,
  nat_key, ltb, leb, keep_if, if◌then◌else◌,
}
use smart_garden_gateway_lwm.Dict.{Dict, get, remove, values}
use smart_garden_gateway_lwm.Model.{
  Instant, elapsed, as_secs, DeviceId, SocketAddr, addr_key, Token, Sender, PendingOperation,
  Device, is_expired, LwM2mResult, failure, timeout,
}
use smart_garden_gateway_lwm.Registry.{RegistryInner}

abbrev pub Reply : Type 0
Reply = Sender × LwM2mResult

-- `op.response_tx.send(Err(LwM2mError::Timeout))`
abbrev pub timed_out : PendingOperation → Reply
timed_out op = (op.response_tx, failure timeout)

-- The replies of a device that is dropped: the pending operations, then those in flight.
abbrev pub dropped_replies : Device → List Reply
dropped_replies d = map timed_out d.pending_ops ++ map timed_out (values d.in_flight)

-- `by_id.remove(&id)` and the rest of the loop body of `expire_stale`.
unfoldable pub drop_device : RegistryInner → DeviceId → Option (Bytes × List Reply) × RegistryInner
drop_device r id = elim (get r.by_id id) [
  | none ↦ (none, r)
  | some d ↦ (
    some (d.endpoint, dropped_replies d),
    record r {
      by_id = remove r.by_id id;
      by_endpoint = remove r.by_endpoint d.endpoint;
      by_addr = remove r.by_addr d.addr;
    },
  )
]

abbrev pub report : Option (Bytes × List Reply) → List Bytes × List Reply → List Bytes × List Reply
report none out = out
report (some (endpoint, replies)) (removed, later) = (endpoint ∷ removed, replies ++ later)

unfoldable pub drop_all : RegistryInner → List DeviceId → (List Bytes × List Reply) × RegistryInner
unfolding drop_device
drop_all r [] = (([], []), r)
drop_all r (id ∷ ids) =
    let (dropped, r') = drop_device r id in
    let (out, r'') = drop_all r' ids in (report dropped out, r'')

unfoldable pub expired_ids : RegistryInner → ℕ → Instant → List DeviceId
expired_ids r grace_secs now =
    map (λ d. d.id) (keep_if (λ d. is_expired d grace_secs now) (values r.by_id))

unfoldable pub expire_stale :
    RegistryInner → ℕ → Instant → (List Bytes × List Reply) × RegistryInner
unfolding drop_all expired_ids is_expired
expire_stale r grace_secs now = drop_all r (expired_ids r grace_secs now)

unfoldable pub remove_by_addr :
    RegistryInner → SocketAddr → Option (Bytes × List Reply) × RegistryInner
remove_by_addr r addr = elim (get r.by_addr addr) [
  | none ↦ (none, r)
  | some id ↦ elim (get r.by_id id) [
    | none ↦ (none, r)
    | some d ↦ (
      some (d.endpoint, dropped_replies d),
      record r {
        by_id = remove r.by_id id;
        by_endpoint = remove r.by_endpoint d.endpoint;
        by_addr = remove r.by_addr addr;
      },
    )
  ]
]

abbrev pub since : Instant → Option Instant → ℕ → Bool
since now none d = true
since now (some t) d = leb d (elapsed now t)

-- The three durations are in nanoseconds.
unfoldable pub needs_ping : ℕ → ℕ → ℕ → Instant → Device → Bool
needs_ping offline_interval online_interval offline_max_duration now d = elim d.online [
  | some true ↦
      leb online_interval (elapsed now d.last_contact)
      && since now d.last_ping_attempt online_interval
  | some false ↦
      (elim d.offline_since [ none ↦ false | some t ↦ ltb (elapsed now t) offline_max_duration ])
      && since now d.last_ping_attempt offline_interval
  | none ↦ false
]

module _ (offline_interval online_interval offline_max_duration : ℕ) (now : Instant) where
  -- One pass over the devices: those that are due are marked and listed.
  unfoldable pub ping_pass :
      List (DeviceId × Device) → List (Bytes × SocketAddr) × List (DeviceId × Device)
  unfolding needs_ping
  ping_pass [] = ([], [])
  ping_pass ((id, d) ∷ rest) =
      let (candidates, rest') = ping_pass rest in
      if needs_ping offline_interval online_interval offline_max_duration now d
      then (
        (d.endpoint, d.addr) ∷ candidates,
        (id, record d { last_ping_attempt = some now }) ∷ rest',
      )
      else (candidates, (id, d) ∷ rest')

  unfoldable pub take_ping_candidates : RegistryInner → List (Bytes × SocketAddr) × RegistryInner
  unfolding ping_pass
  take_ping_candidates r =
      let (candidates, devices) = ping_pass r.by_id.entries in
      (candidates, record r { by_id = record { entries = devices } })

module _ (max_secs : ℕ) (now : Instant) where
  abbrev pub overdue : PendingOperation → Bool
  overdue op = ltb max_secs (as_secs (elapsed now op.created_at))

  unfoldable pub overdue_tokens : List (Token × PendingOperation) → List Token
  overdue_tokens in_flight = map (λ e. e.0) (keep_if (λ e. overdue e.1) in_flight)

  unfoldable pub fire_all :
      Dict Token PendingOperation → List Token → List Reply × Dict Token PendingOperation
  fire_all m [] = ([], m)
  fire_all m (token ∷ tokens) =
      let (replies, m') = fire_all (remove m token) tokens in
      elim (get m token) [ none ↦ (replies, m') | some op ↦ (timed_out op ∷ replies, m') ]

  unfoldable pub timeout_pass : List (DeviceId × Device) → List Reply × List (DeviceId × Device)
  unfolding overdue_tokens fire_all
  timeout_pass [] = ([], [])
  timeout_pass ((id, d) ∷ rest) =
      let (replies, in_flight) = fire_all d.in_flight (overdue_tokens d.in_flight.entries) in
      let (later, rest') = timeout_pass rest in
      (replies ++ later, (id, record d { in_flight = in_flight }) ∷ rest')

  unfoldable pub timeout_in_flight : RegistryInner → List Reply × RegistryInner
  unfolding timeout_pass
  timeout_in_flight r =
      let (replies, devices) = timeout_pass r.by_id.entries in
      (replies, record r { by_id = record { entries = devices } })
