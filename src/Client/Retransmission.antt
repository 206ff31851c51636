-- ===== src/Client/Retransmission.antt =====
-- src/lwm2m/client.rs: a request is sent a bounded number of times and is then no longer in flight.
use smart_garden_gateway_lwm.Prelude.{
  ◌⊎◌, ℕ, zero, suc, ◌+◌, ◌*◌, ◌≤◌, ◌≡◌, refl, ◌∙◌, inl, inr, Bool, true, false, Option, none, some,
  List, [], ◌∷◌, Bytes, bytes_key, nat_key, Outcome, ok, panic, Bool-cases, Option-cases, arith,
  Returns,
}
use smart_garden_gateway_lwm.Dict.{get, remove, contains_key}
use smart_garden_gateway_lwm.Dict.Laws.{get-insert, get-remove}
use smart_garden_gateway_lwm.Model.{Instant, SocketAddr, addr_key, Token, PendingOperation}
use smart_garden_gateway_lwm.Coap.{Packet}
use smart_garden_gateway_lwm.Registry.{RegistryInner}
use smart_garden_gateway_lwm.Registry.Valid.{IsValid}
use smart_garden_gateway_lwm.Registry.Kept.{complete_in_flight-IsValid, set_device_offline-IsValid}
use smart_garden_gateway_lwm.Registry.Operations.{is_in_flight, complete_in_flight}
use smart_garden_gateway_lwm.Registry.Contact.{set_device_offline}
use smart_garden_gateway_lwm.Client.{ack_timeout_ms, max_retransmit}
use smart_garden_gateway_lwm.Client.BlockWrite.{Action, transmit, wait}
use smart_garden_gateway_lwm.Client.Dispatch.{
  Sent, went_offline, answer_timeout, prepend, retransmit, send_task,
}

-- The milliseconds that a task waits, and how often it sends.
unfoldable pub waited : List Action → ℕ
waited [] = 0
waited (wait ms ∷ actions) = ms + waited actions
waited (action ∷ actions) = waited actions

unfoldable pub transmissions : List Action → ℕ
transmissions [] = 0
transmissions (transmit p ∷ actions) = suc (transmissions actions)
transmissions (action ∷ actions) = transmissions actions

module _ (r : RegistryInner) (v : IsValid r) (addr : SocketAddr) (token : Token) where
  is_in_flight_complete : is_in_flight (complete_in_flight r addr token).1 addr token ≡ ok false
  unfolding is_in_flight complete_in_flight
  is_in_flight_complete = elim (Option-cases (get r.by_addr addr)) [
    | inl absent ↦ rw (absent, complete_in_flight) (rw (absent, is_in_flight) refl)
    | inr (id, at) ↦ elim (Option-cases (get r.by_id id)) [
      | inl lost ↦ absurd (ground (arith, v.addrs addr id at))
      | inr (d, found) ↦ ground (
        arith,
        get-insert r.by_id id id (record d { in_flight = remove d.in_flight token }),
        get-remove d.in_flight token token,
      )
    ]
  ]

  is_in_flight-offline :
      (now : Instant)
      → is_in_flight (set_device_offline r addr now).1 addr token ≡ is_in_flight r addr token
  unfolding is_in_flight set_device_offline
  is_in_flight-offline now = elim (Option-cases (get r.by_addr addr)) [
    | inl absent ↦ rw (absent, set_device_offline) refl
    | inr (id, at) ↦ elim (Option-cases (get r.by_id id)) [
      | inl lost ↦ absurd (ground (arith, v.addrs addr id at))
      | inr (d, found) ↦ ground (
        arith,
        get-insert r.by_id id id (record d { online = some false; offline_since = some now }),
      )
    ]
  ]

  is_in_flight-Returns :
      (is_in_flight r addr token ≡ ok true) ⊎ (is_in_flight r addr token ≡ ok false)
  unfolding is_in_flight
  is_in_flight-Returns = elim (Option-cases (get r.by_addr addr)) [
    | inl absent ↦ inr (rw (absent, is_in_flight) refl)
    | inr (id, at) ↦ elim (Option-cases (get r.by_id id)) [
      | inl lost ↦ absurd (ground (arith, v.addrs addr id at))
      | inr (d, found) ↦ elim (Bool-cases (contains_key d.in_flight token)) [
        | inl e ↦ inl (rw (at, found, is_in_flight, e) refl)
        | inr e ↦ inr (rw (at, found, is_in_flight, e) refl)
      ]
    ]
  ]

-- The time for as many waits, each twice as long as the one before.
abbrev doubling : ℕ → ℕ → ℕ
doubling zero ms = 0
doubling (suc left) ms = ms + doubling left (ms * 2)

abbrev pub IsDone : SocketAddr → Token → ℕ → ℕ → Sent → Type 0
IsDone addr token left ms s =
    IsValid s.registry
    × (is_in_flight s.registry addr token ≡ ok false)
    × (transmissions s.actions ≤ left)
    × (waited s.actions ≤ doubling left ms)

module _ (packet : Packet) (token : Token) (addr : SocketAddr) where
  went_offline-IsDone :
      (op : Option PendingOperation) (out : Option Bytes × RegistryInner) (ms : ℕ)
      → IsValid out.1
      → is_in_flight out.1 addr token ≡ ok false
      → IsDone addr token 0 ms (went_offline (answer_timeout op) out)
  unfolding waited transmissions
  went_offline-IsDone none (none, r) ms v gone = (v, gone, omega arith, omega arith)
  went_offline-IsDone none (some e, r) ms v gone = (v, gone, omega arith, omega arith)
  went_offline-IsDone (some op) (none, r) ms v gone = (v, gone, omega arith, omega arith)
  went_offline-IsDone (some op) (some e, r) ms v gone = (v, gone, omega arith, omega arith)

  prepend-IsDone :
      (left ms : ℕ) (out : Outcome Sent)
      → Returns out (IsDone addr token left (ms * 2))
      → Returns (prepend (transmit packet ∷ wait ms ∷ []) out) (IsDone addr token (suc left) ms)
  unfolding waited transmissions
  prepend-IsDone left ms (ok s) (v, gone, sent, time) =
      (v, gone, omega (arith, sent), omega (arith, time))
  prepend-IsDone left ms panic bad = bad

  prepend-IsAnswered :
      (left ms : ℕ) (r : RegistryInner)
      → IsValid r
      → is_in_flight r addr token ≡ ok false
      → Returns
          (prepend
            (transmit packet ∷ wait ms ∷ [])
            (ok (record { actions = []; offline_events = []; registry = r })))
          (IsDone addr token (suc left) ms)
  unfolding waited transmissions
  prepend-IsAnswered left ms r v gone = (v, gone, omega arith, omega arith)

  module _ (sends : ℕ → Bool) (others : ℕ → RegistryInner → RegistryInner) (now : Instant)
      (all_sent : (i : ℕ) → sends i ≡ true)
      (kept : (i : ℕ) (r : RegistryInner) → IsValid r → IsValid (others i r)) where
    retransmit-IsDone :
        (left ms i : ℕ) (r : RegistryInner)
        → IsValid r
        → Returns
            (retransmit packet token addr sends others now left ms i r)
            (IsDone addr token left ms)
    unfolding retransmit
    retransmit-IsDone zero ms i r v =
        let (op, r') = complete_in_flight r addr token in
        let v' = complete_in_flight-IsValid r v addr token in
        went_offline-IsDone op (set_device_offline r' addr now) ms
          (set_device_offline-IsValid r' v' addr now)
          (is_in_flight-offline r' v' addr token now ∙ is_in_flight_complete r v addr token)
    retransmit-IsDone (suc left) ms i r v =
        let v' = kept i r v in
        elim (is_in_flight-Returns (others i r) v' addr token) [
          | inl e ↦
              rw (all_sent i, e, retransmit)
                (prepend-IsDone left ms
                  (retransmit packet token addr sends others now left (ms * 2) (i + 1) (others i r))
                  (retransmit-IsDone left (ms * 2) (i + 1) (others i r) v'))
          | inr e ↦ rw (all_sent i, e, retransmit) (prepend-IsAnswered left ms (others i r) v' e)
        ]

    -- If each send succeeds and the other tasks keep the registry valid, the task ends without a panic
    -- after at most three transmissions and fourteen seconds; the registry is valid then, and the
    -- operation is no longer in flight.
    pub send_task-IsDone :
        (r : RegistryInner)
        → IsValid r
        → Returns (send_task packet token addr sends others now r) (IsDone addr token 3 2000)
    unfolding send_task
    send_task-IsDone r v = retransmit-IsDone max_retransmit ack_timeout_ms 0 r v
