-- ===== src/Registry/Operations.antt =====
-- src/registry.rs: the operations that wait for a device and those that it has to answer.
use smart_garden_gateway_lwm.Prelude.{
  Bool, false, Option, none, some, List, [], bytes_key, nat_key, Outcome, ok, expect, ◌>>=◌,
}
use smart_garden_gateway_lwm.Dict.{get, insert, remove, contains_key}
use smart_garden_gateway_lwm.Model.{SocketAddr, addr_key, Token, PendingOperation}
use smart_garden_gateway_lwm.Registry.{RegistryInner, put_device}

unfoldable pub drain_pending :
    RegistryInner → SocketAddr → Outcome (List PendingOperation × RegistryInner)
drain_pending r addr = elim (get r.by_addr addr) [
  | none ↦ ok ([], r)
  | some id ↦ do
    d ← expect (get r.by_id id)
    ok (d.pending_ops, put_device r id (record d { pending_ops = [] }))
]

unfoldable pub place_in_flight :
    RegistryInner → SocketAddr → Token → PendingOperation → RegistryInner
place_in_flight r addr token op = elim (get r.by_addr addr) [
  | none ↦ r
  | some id ↦ elim (get r.by_id id) [
    | none ↦ r
    | some d ↦ put_device r id (record d { in_flight = insert d.in_flight token op })
  ]
]

unfoldable pub is_in_flight : RegistryInner → SocketAddr → Token → Outcome Bool
is_in_flight r addr token = elim (get r.by_addr addr) [
  | none ↦ ok false
  | some id ↦ do d ← expect (get r.by_id id); ok (contains_key d.in_flight token)
]

unfoldable pub complete_in_flight :
    RegistryInner → SocketAddr → Token → Option PendingOperation × RegistryInner
complete_in_flight r addr token = elim (get r.by_addr addr) [
  | none ↦ (none, r)
  | some id ↦ elim (get r.by_id id) [
    | none ↦ (none, r)
    | some d ↦
        (get d.in_flight token, put_device r id (record d { in_flight = remove d.in_flight token }))
  ]
]
