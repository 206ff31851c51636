-- ===== src/Server/Replies.antt =====
-- src/lwm2m/server.rs: an operation in flight is answered once.
use smart_garden_gateway_lwm.Prelude.{
  ◌≡◌, refl, ap, ◌∙◌, Bool, false, none, some, Bytes, bytes_key, nat_key, arith, Option-cases, inl,
  inr,
}
use smart_garden_gateway_lwm.Dict.{get, remove}
use smart_garden_gateway_lwm.Dict.Laws.{get-insert, get-remove}
use smart_garden_gateway_lwm.Model.{
  SocketAddr, addr_key, Token, PendingOperation, DeviceId, Device, failure, coap_error,
}
use smart_garden_gateway_lwm.Coap.{Packet, coap_response_to_result}
use smart_garden_gateway_lwm.Registry.{RegistryInner}
use smart_garden_gateway_lwm.Registry.Operations.{complete_in_flight}
use smart_garden_gateway_lwm.Bootstrap.{is_pending, complete_write_ack}
use smart_garden_gateway_lwm.Server.{token_array}
use smart_garden_gateway_lwm.Server.Acks.{
  ServerState, nothing, result, fire_result, handle_ack, handle_reset,
}

-- The device at the address has the operation in flight, and nothing else waits for the token.
pub record IsAwaited (s : ServerState) (addr : SocketAddr) (t : Token) (op : PendingOperation)
    : Type 0 where
  pub id : DeviceId
  pub device : Device
  pub at : get s.registry.by_addr addr ≡ some id
  pub found : get s.registry.by_id id ≡ some device
  pub in_flight : get device.in_flight t ≡ some op
  pub no_write : get s.bootstrap.write_acks t ≡ none
  pub no_session : is_pending s.bootstrap t ≡ false
  pub no_block : get s.block_acks t ≡ none

complete_again :
    (r : RegistryInner) (addr : SocketAddr) (t : Token)
    → (complete_in_flight (complete_in_flight r addr t).1 addr t).0 ≡ none
unfolding complete_in_flight
complete_again r addr t = elim (Option-cases (get r.by_addr addr)) [
  | inl absent ↦ rw (absent, complete_in_flight) (rw (absent, complete_in_flight) refl)
  | inr (id, at) ↦ elim (Option-cases (get r.by_id id)) [
    | inl lost ↦ ground arith
    | inr (d, found) ↦ ground (
      arith,
      get-insert r.by_id id id (record d { in_flight = remove d.in_flight t }),
      get-remove d.in_flight t t,
    )
  ]
]

complete_awaited :
    (s : ServerState) (addr : SocketAddr) (t : Token) (op : PendingOperation)
    → IsAwaited s addr t op
    → (complete_in_flight s.registry addr t).0 ≡ some op
unfolding complete_in_flight
complete_awaited s addr t op a = rw (a.at, a.found, complete_in_flight) a.in_flight

-- No other task waits for the token.
ack_in_flight :
    (accepts : Bytes → Bytes → Bool) (p : Packet) (addr : SocketAddr) (s : ServerState)
    → let t = token_array p.token in
      get s.bootstrap.write_acks t ≡ none
      → is_pending s.bootstrap t ≡ false
      → get s.block_acks t ≡ none
      → let (op, r) = complete_in_flight s.registry addr t in
        handle_ack accepts p addr s
        ≡ (fire_result (coap_response_to_result p) op, record s { registry = r })
unfolding handle_ack complete_write_ack
ack_in_flight accepts p addr s a b c = rw (a, b, c, handle_ack, complete_write_ack) refl

reset_in_flight :
    (p : Packet) (addr : SocketAddr) (s : ServerState)
    → let t = token_array p.token in
      get s.bootstrap.write_acks t ≡ none
      → is_pending s.bootstrap t ≡ false
      → let (op, r) = complete_in_flight s.registry addr t in
        handle_reset p addr s ≡ (
          fire_result (failure (coap_error 5 0)) op,
          record s { registry = r; block_acks = remove s.block_acks t },
        )
unfolding handle_reset complete_write_ack
reset_in_flight p addr s a b = rw (b, a, handle_reset, complete_write_ack) refl

-- The acknowledgement of an operation in flight, whose token nothing else waits for, sends its
-- result to the caller once: any packet with that token afterwards is ignored.
pub handle_ack-once :
    (accepts : Bytes → Bytes → Bool) (p q : Packet) (addr : SocketAddr) (s : ServerState)
    (op : PendingOperation)
    → IsAwaited s addr (token_array p.token) op
    → token_array q.token ≡ token_array p.token
    → ((handle_ack accepts p addr s).0 ≡ result (op.response_tx, coap_response_to_result p))
      × ((handle_ack accepts q addr (handle_ack accepts p addr s).1).0 ≡ nothing)
handle_ack-once accepts p q addr s op a same =
    let t = token_array p.token in
    let r = (complete_in_flight s.registry addr t).1 in
    let s' = record s { registry = r } in
    let first = ack_in_flight accepts p addr s a.no_write a.no_session a.no_block in
    let second =
      ack_in_flight accepts q addr s' (ap (get s.bootstrap.write_acks) same ∙ a.no_write)
        (ap (is_pending s.bootstrap) same ∙ a.no_session)
        (ap (get s.block_acks) same ∙ a.no_block) in
    (
      ap (λ out. out.0) first
          ∙ ap (fire_result (coap_response_to_result p)) (complete_awaited s addr t op a),
      ap (λ out. (handle_ack accepts q addr out.1).0) first
          ∙ ap (λ out. out.0) second
          ∙ ap (λ u. fire_result (coap_response_to_result q) (complete_in_flight r addr u).0) same
          ∙ ap (fire_result (coap_response_to_result q)) (complete_again s.registry addr t),
    )

-- A reset from the device, in the same situation, fails the operation with 5.00, and a later
-- acknowledgement with the token is ignored.
pub handle_reset-once :
    (accepts : Bytes → Bytes → Bool) (p q : Packet) (addr : SocketAddr) (s : ServerState)
    (op : PendingOperation)
    → IsAwaited s addr (token_array p.token) op
    → token_array q.token ≡ token_array p.token
    → ((handle_reset p addr s).0 ≡ result (op.response_tx, failure (coap_error 5 0)))
      × ((handle_ack accepts q addr (handle_reset p addr s).1).0 ≡ nothing)
handle_reset-once accepts p q addr s op a same =
    let t = token_array p.token in
    let r = (complete_in_flight s.registry addr t).1 in
    let s' = record s { registry = r; block_acks = remove s.block_acks t } in
    let first = reset_in_flight p addr s a.no_write a.no_session in
    let second =
      ack_in_flight accepts q addr s' (ap (get s.bootstrap.write_acks) same ∙ a.no_write)
        (ap (is_pending s.bootstrap) same ∙ a.no_session)
        (ap (get (remove s.block_acks t)) same ∙ ground (arith, get-remove s.block_acks t t)) in
    (
      ap (λ out. out.0) first
          ∙ ap (fire_result (failure (coap_error 5 0))) (complete_awaited s addr t op a),
      ap (λ out. (handle_ack accepts q addr out.1).0) first
          ∙ ap (λ out. out.0) second
          ∙ ap (λ u. fire_result (coap_response_to_result q) (complete_in_flight r addr u).0) same
          ∙ ap (fire_result (coap_response_to_result q)) (complete_again s.registry addr t),
    )
