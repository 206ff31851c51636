-- ===== src/Housekeeping.antt =====
-- src/housekeeping.rs: what happens on each tick of the clock.
pub mod Ticks
use smart_garden_gateway_lwm.Prelude.{ℕ, ◌+◌, ◌*◌, ◌%◌, ◌^◌, none, List, [], ◌∷◌, ◌++◌, Bytes}
use smart_garden_gateway_lwm.Model.{
  Instant, nanos_per_sec, SocketAddr, Sender, execute, PendingOperation, new_operation, ping_path,
}
use smart_garden_gateway_lwm.Registry.{RegistryInner}
use smart_garden_gateway_lwm.Registry.Sweep
use smart_garden_gateway_lwm.Registry.Sweep.{Reply, timeout_in_flight, take_ping_candidates}
use smart_garden_gateway_lwm.Bootstrap
use smart_garden_gateway_lwm.Bootstrap.{BootstrapInner}

abbrev pub grace_secs : ℕ
grace_secs = 30

abbrev pub in_flight_timeout_secs : ℕ
in_flight_timeout_secs = 60

abbrev pub bootstrap_timeout_secs : ℕ
bootstrap_timeout_secs = 30

abbrev pub offline_ping_interval : ℕ
offline_ping_interval = 15 * 60 * nanos_per_sec

abbrev pub online_ping_interval : ℕ
online_ping_interval = 9000 * nanos_per_sec

abbrev pub offline_ping_max_duration : ℕ
offline_ping_max_duration = 6 * 60 * 60 * nanos_per_sec

-- The registries, the counter of pings, and the identity of the next channel.
pub record HousekeepingState : Type 0 where
  pub registry : RegistryInner
  pub bootstrap : BootstrapInner
  pub next_ping_op_id : ℕ
  pub next_channel : Sender

-- The operation that each candidate is sent. `fetch_add` wraps around.
unfoldable pub ping_all :
    Instant
    → List (Bytes × SocketAddr)
    → ℕ
    → Sender
    → List (SocketAddr × PendingOperation) × (ℕ × Sender)
unfolding new_operation
ping_all now [] id channel = ([], (id, channel))
ping_all now ((endpoint, addr) ∷ candidates) id channel =
    let later = ping_all now candidates ((id + 1) % 2 ^ 32) (channel + 1) in
    ((addr, new_operation id (execute ping_path none) channel now) ∷ later.0, later.1)

-- The replies that waiting tasks get on a tick, and the operations that are dispatched.
abbrev pub TickEffects : Type 0
TickEffects = List Reply × List (SocketAddr × PendingOperation)

-- One tick of `run`.
unfoldable pub tick : HousekeepingState → Instant → TickEffects × HousekeepingState
unfolding Sweep.expire_stale Bootstrap.expire_stale timeout_in_flight take_ping_candidates ping_all
tick s now =
    let ((expired, dropped), r1) = Sweep.expire_stale s.registry grace_secs now in
    let (timeouts, r2) = timeout_in_flight in_flight_timeout_secs now r1 in
    let b = Bootstrap.expire_stale s.bootstrap bootstrap_timeout_secs now in
    let (candidates, r3) =
      take_ping_candidates offline_ping_interval online_ping_interval offline_ping_max_duration now
        r2 in
    let (pings, (id, channel)) = ping_all now candidates s.next_ping_op_id s.next_channel in
    (
      (dropped ++ timeouts, pings),
      record s { registry = r3; bootstrap = b; next_ping_op_id = id; next_channel = channel },
    )
