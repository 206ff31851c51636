-- ===== src/Client/Dispatch.antt =====
-- src/lwm2m/client.rs: dispatch_op, which hands an operation to a task that sends it until the
-- device has answered.
use smart_garden_gateway_lwm.Prelude.{
  ℕ, zero, suc, ◌+◌, ◌-◌, ◌*◌, ◌/◌, ◌%◌, ◌^◌, Bool, true, false, Option, none, some, List, [], ◌∷◌,
  ◌++◌, Bytes, ltb, ◌==◌, if◌then◌else◌, length, Outcome, ok, panic, ◌>>=◌,
}
use smart_garden_gateway_lwm.Model.{
  Instant, SocketAddr, Token, PendingOperation, LwM2mCommand, write, failure, timeout, bad_request,
}
use smart_garden_gateway_lwm.Bootstrap.{token_of}
use smart_garden_gateway_lwm.Coap.{Packet}
use smart_garden_gateway_lwm.Registry.{RegistryInner}
use smart_garden_gateway_lwm.Registry.Operations.{place_in_flight, is_in_flight, complete_in_flight}
use smart_garden_gateway_lwm.Registry.Contact.{set_device_offline}
use smart_garden_gateway_lwm.Client.{
  ack_timeout_ms, max_retransmit, block_threshold, next_mid, build_request,
}
use smart_garden_gateway_lwm.Client.BlockWrite.{Action, transmit, wait, answer}

-- The task that is spawned, if there is one.
pub data Spawned : Type 0 where
  nothing : Spawned
  block_write : ℕ → Spawned
  send_confirmable : Packet → Token → Spawned

abbrev pub block_count : LwM2mCommand → Option ℕ
block_count (write path value format) =
    if ltb block_threshold (length value)
    then some ((length value + (block_threshold - 1)) / block_threshold)
    else none
block_count command = none

-- `mid_counter.wrapping_add(max_blocks as u16)`, and 1 for 0.
abbrev pub skip_mids : ℕ → ℕ → ℕ
skip_mids counter blocks = let m = (counter + blocks % 2 ^ 16) % 2 ^ 16 in if m == 0 then 1 else m

module _ (to_bytes : Packet → Option Bytes) where
  unfoldable pub dispatch_op :
      RegistryInner
      → SocketAddr
      → PendingOperation
      → ℕ
      → (List Action × Spawned) × (RegistryInner × ℕ)
  unfolding token_of next_mid build_request place_in_flight
  dispatch_op r addr op counter = elim (block_count op.command) [
    | some blocks ↦ (([], block_write counter), (r, skip_mids counter blocks))
    | none ↦
        let token = token_of op.id in
        let (mid, counter') = next_mid counter in
        let packet = build_request op.command token mid in
        elim (to_bytes packet) [
          | none ↦ ((answer op.response_tx (failure bad_request) ∷ [], nothing), (r, counter'))
          | some sent ↦ (
            ([], send_confirmable packet token),
            (
              place_in_flight r addr token (record op { attempts = (op.attempts + 1) % 256 }),
              counter',
            ),
          )
        ]
  ]

-- What a task did and what it left; the events tell which endpoint went offline.
pub record Sent : Type 0 where
  pub actions : List Action
  pub offline_events : List Bytes
  pub registry : RegistryInner

abbrev pub went_offline : List Action → Option Bytes × RegistryInner → Sent
went_offline actions (none, r) = record { actions = actions; offline_events = []; registry = r }
went_offline actions (some e, r) = record {
  actions = actions;
  offline_events = e ∷ [];
  registry = r;
}

abbrev pub answer_timeout : Option PendingOperation → List Action
answer_timeout none = []
answer_timeout (some op) = answer op.response_tx (failure timeout) ∷ []

abbrev pub prepend : List Action → Outcome Sent → Outcome Sent
prepend actions (ok s) = ok (record s { actions = actions ++ s.actions })
prepend actions panic = panic

-- `sends` tells whether a send succeeds, `others` is what other tasks do to the registry during a
-- wait, and `now` what the clock reads when the device is marked as offline.
module _ (packet : Packet) (token : Token) (addr : SocketAddr) (sends : ℕ → Bool)
    (others : ℕ → RegistryInner → RegistryInner) (now : Instant) where
  -- `left` is how many transmissions are left.
  unfoldable pub retransmit : ℕ → ℕ → ℕ → RegistryInner → Outcome Sent
  unfolding complete_in_flight set_device_offline is_in_flight
  retransmit zero timeout_ms i r =
      let (op, r') = complete_in_flight r addr token in
      ok (went_offline (answer_timeout op) (set_device_offline r' addr now))
  retransmit (suc left) timeout_ms i r =
      let r' = others i r in
      let again = retransmit left (timeout_ms * 2) (i + 1) r' in
      elim (sends i) [
        | false ↦ ok (went_offline [] (set_device_offline r addr now))
        | true ↦ prepend (transmit packet ∷ wait timeout_ms ∷ []) (
            is_in_flight r' addr token >>= λ flying.
            if flying
            then again
            else ok (record { actions = []; offline_events = []; registry = r' }))
      ]

  unfoldable pub send_task : RegistryInner → Outcome Sent
  unfolding retransmit
  send_task r = retransmit max_retransmit ack_timeout_ms 0 r
