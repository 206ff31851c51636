-- ===== src/Client/BlockWrite.antt =====
-- src/lwm2m/client.rs: dispatch_block_write, a write in blocks, as the actions of its task.
use smart_garden_gateway_lwm.Prelude.{
  ℕ, zero, suc, ◌+◌, ◌-◌, ◌*◌, ◌/◌, ◌%◌, ◌^◌, ◌++◌, min, Bool, true, false, Option, none, some,
  List, [], ◌∷◌, Bytes, bytes_key, ltb, ◌==◌, if◌then◌else◌, length, take, drop,
}
use smart_garden_gateway_lwm.Dict.{Dict, insert, remove}
use smart_garden_gateway_lwm.Model.{
  Token, Sender, SocketAddr, LwM2mResult, success, failure, timeout, bad_request, coap_response,
  coap_error,
}
use smart_garden_gateway_lwm.Coap.{
  Packet, MessageClass, Status, response, continue, class_result, response_type_to_class_detail,
}
use smart_garden_gateway_lwm.Client.{
  ack_timeout_ms, max_retransmit, block_szx, size_of, encode_block1, block1_szx_from_response,
  build_block_put,
}

-- What comes of one transmission: the send fails, the other task hands over an acknowledgement or
-- drops the sender on a reset, or the time is over.
pub data Event : Type 0 where
  send_failed : Event
  answered : Packet → Event
  was_reset : Event
  silence : Event

pub data Action : Type 0 where
  transmit : Packet → Action
  wait : ℕ → Action
  answer : Sender → LwM2mResult → Action
  mark_device_offline : SocketAddr → Action

-- The local variables of the loop over the blocks.
pub record Transfer : Type 0 where
  pub szx : ℕ
  pub block_size : ℕ
  pub mid : ℕ
  pub offset : ℕ
  pub first_ack_tx : Option Sender

-- `BlockAckMap`, each sender named by the number of its transmission.
abbrev pub BlockAcks : Type 0
BlockAcks = Dict Token Sender

-- What the task was started with.
pub record BlockOp : Type 0 where
  pub addr : SocketAddr
  pub token : Token
  pub path : Bytes
  pub payload : Bytes
  pub content_format : ℕ
  pub response_tx : Sender

-- The retransmit loop of a block: the actions, the acknowledgement if there is one, the count of
-- transmissions, and the map.
pub record Exchanged : Type 0 where
  pub actions : List Action
  pub ack : Option Packet
  pub next : ℕ
  pub acks : BlockAcks

abbrev pub before : List Action → Exchanged → Exchanged
before actions x = record x { actions = actions ++ x.actions }

abbrev pub is_continue : Status → Bool
is_continue continue = true
is_continue status = false

-- `mid.wrapping_add(1)`, and 1 for 0.
abbrev pub following_mid : ℕ → ℕ
following_mid mid = let m = (mid + 1) % 2 ^ 16 in if m == 0 then 1 else m

abbrev pub negotiated : Option ℕ → Transfer → Transfer
negotiated none t = t
negotiated (some dev_szx) t =
    if ltb dev_szx t.szx then record t { szx = dev_szx; block_size = size_of dev_szx } else t

abbrev pub first_ack : Option Sender → List Action
first_ack none = []
first_ack (some tx) = answer tx (success (coap_response 2 31)) ∷ []

-- The actions of a step, and those of the rest of the loop unless the step returned.
abbrev pub go_on :
    List Action
    → Option Transfer
    → BlockAcks
    → (Transfer → List Action × (BlockAcks × Bool))
    → List Action × (BlockAcks × Bool)
go_on actions none acks later = (actions, (acks, true))
go_on actions (some t) acks later = let (more, out) = later t in (actions ++ more, out)

abbrev pub first_transfer : ℕ → Option Sender → Transfer
first_transfer start_mid first_ack_tx = record {
  szx = block_szx;
  block_size = size_of block_szx;
  mid = start_mid;
  offset = 0;
  first_ack_tx = first_ack_tx;
}

module _ (op : BlockOp) where
  -- The cases of `MessageClass::Response`: Continue or not, and whether more blocks follow.
  unfoldable pub after_response :
      Bool → Bool → Status → Packet → ℕ → Transfer → List Action × Option Transfer
  unfolding block1_szx_from_response response_type_to_class_detail
  after_response true true status reply end t = (
    first_ack t.first_ack_tx,
    some (record (negotiated (block1_szx_from_response reply) t) {
      mid = following_mid t.mid;
      offset = end;
      first_ack_tx = none;
    }),
  )
  after_response true false status reply end t =
      (answer op.response_tx (failure (coap_error 5 0)) ∷ [], none)
  after_response false more status reply end t =
      (answer op.response_tx (class_result (response_type_to_class_detail status)) ∷ [], none)

  unfoldable pub after_code :
      MessageClass → Packet → Bool → ℕ → Transfer → List Action × Option Transfer
  unfolding after_response
  after_code (response status) reply more end t =
      after_response (is_continue status) more status reply end t
  after_code code reply more end t = (answer op.response_tx (failure (coap_error 5 0)) ∷ [], none)

  abbrev pub end_of : Transfer → ℕ
  end_of t = min (t.offset + t.block_size) (length op.payload)

  abbrev pub more_after : Transfer → Bool
  more_after t = ltb (end_of t) (length op.payload)

  unfoldable pub block_packet : Transfer → Packet
  unfolding encode_block1 build_block_put
  block_packet t =
      build_block_put op.path op.token t.mid (take (end_of t - t.offset) (drop t.offset op.payload))
        op.content_format (encode_block1 (t.offset / t.block_size) (more_after t) t.szx)

  unfoldable pub follow :
      Option Packet
      → Exchanged
      → Bool
      → ℕ
      → Transfer
      → List Action × (Option Transfer × (ℕ × BlockAcks))
  unfolding after_code
  follow none x more end t = (x.actions, (none, (x.next, x.acks)))
  follow (some reply) x more end t =
      let (actions, t') = after_code reply.code reply more end t in
      (x.actions ++ actions, (t', (x.next, x.acks)))

  -- The map has lost the entry of this transmission by whatever comes of it.
  abbrev pub on_event : Event → Packet → ℕ → ℕ → BlockAcks → Exchanged → Exchanged
  on_event send_failed packet timeout_ms next removed later = record {
    actions = answer op.response_tx (failure timeout) ∷ mark_device_offline op.addr ∷ [];
    ack = none;
    next = next;
    acks = removed;
  }
  on_event (answered reply) packet timeout_ms next removed later = record {
    actions = transmit packet ∷ [];
    ack = some reply;
    next = next;
    acks = removed;
  }
  on_event was_reset packet timeout_ms next removed later = record {
    actions = transmit packet ∷ answer op.response_tx (failure (coap_error 5 0)) ∷ [];
    ack = none;
    next = next;
    acks = removed;
  }
  on_event silence packet timeout_ms next removed later =
      before (transmit packet ∷ wait timeout_ms ∷ []) later

  -- `events` is what comes of each transmission, and `to_bytes` encodes a packet.
  module _ (events : ℕ → Event) where
    -- `left` is how many transmissions are left.
    unfoldable pub exchange : ℕ → ℕ → ℕ → Packet → BlockAcks → Exchanged
    exchange zero timeout_ms i packet acks = record {
      actions = answer op.response_tx (failure timeout) ∷ mark_device_offline op.addr ∷ [];
      ack = none;
      next = i;
      acks = acks;
    }
    exchange (suc left) timeout_ms i packet acks =
        let removed = remove (insert acks op.token i) op.token in
        on_event (events i) packet timeout_ms (i + 1) removed
          (exchange left (timeout_ms * 2) (i + 1) packet removed)

    module _ (to_bytes : Packet → Option Bytes) where
      -- The body of the loop: none as the next state is a `return`.
      unfoldable pub block_step :
          Transfer → ℕ → BlockAcks → List Action × (Option Transfer × (ℕ × BlockAcks))
      unfolding exchange block_packet follow
      block_step t i acks = elim (to_bytes (block_packet t)) [
        | none ↦ (answer op.response_tx (failure bad_request) ∷ [], (none, (i, acks)))
        | some sent ↦
            let x = exchange max_retransmit ack_timeout_ms i (block_packet t) acks in
            follow x.ack x (more_after t) (end_of t) t
      ]

      -- The loop. False says that the fuel did not reach.
      unfoldable pub block_loop : ℕ → Transfer → ℕ → BlockAcks → List Action × (BlockAcks × Bool)
      unfolding block_step
      block_loop zero t i acks = ([], (acks, false))
      block_loop (suc fuel) t i acks = elim (ltb t.offset (length op.payload)) [
        | false ↦ ([], (acks, true))
        | true ↦
            let (actions, (next, (i', acks'))) = block_step t i acks in
            go_on actions next acks' (λ t'. block_loop fuel t' i' acks')
      ]

      unfoldable pub dispatch_block_write :
          ℕ → ℕ → Option Sender → BlockAcks → List Action × (BlockAcks × Bool)
      unfolding block_loop
      dispatch_block_write fuel start_mid first_ack_tx acks =
          block_loop fuel (first_transfer start_mid first_ack_tx) 0 acks
