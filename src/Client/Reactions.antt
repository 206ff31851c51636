-- ===== src/Client/Reactions.antt =====
-- src/lwm2m/client.rs: what one block, its retransmissions and its acknowledgement come to.
use smart_garden_gateway_lwm.Prelude.{
  ℕ, zero, suc, ◌+◌, ◌*◌, ◌%◌, ◌<◌, ◌≤◌, ◌≡◌, refl, sym, ap, ◌∙◌, if◌then◌else◌, ◌⊎◌, inl, inr,
  Bool, true, false, Option, none, some, List, [], ◌∷◌, ◌++◌, Bytes, ltb, arith, length, Bool-cases,
  Option-cases, subst,
}
use smart_garden_gateway_lwm.Model.{Sender, failure, bad_request}
use smart_garden_gateway_lwm.Coap.{
  Packet, Status, MessageClass, response, empty_class, request, reserved,
}
use smart_garden_gateway_lwm.Client.{
  size_of, max_retransmit, ack_timeout_ms, block1_szx_from_response,
}
use smart_garden_gateway_lwm.Prelude.{bytes_key}
use smart_garden_gateway_lwm.Dict.{insert, remove}
use smart_garden_gateway_lwm.Client.BlockWrite.{
  Event, send_failed, answered, was_reset, silence, Action, transmit, wait, answer,
  mark_device_offline, Transfer, BlockAcks, BlockOp, Exchanged, exchange, on_event, go_on,
  after_response, after_code, is_continue, block_packet, block_step, block_loop, end_of, more_after,
  follow, negotiated, first_ack, following_mid,
}
use smart_garden_gateway_lwm.Client.Receiver.{
  Receiver, Delivery, settle, receive, receive_block, IsAligned, multiple_next,
}

pub receive-append :
    (xs ys : List Action) (s : Delivery) → receive (xs ++ ys) s ≡ receive ys (receive xs s)
unfolding receive
receive-append [] ys s = refl
receive-append (transmit p ∷ xs) ys s =
    receive-append xs ys (record s { device = receive_block p s.device; without = s.device })
receive-append (wait ms ∷ xs) ys s = receive-append xs ys (settle s)
receive-append (answer tx result ∷ xs) ys s = receive-append xs ys s
receive-append (mark_device_offline addr ∷ xs) ys s = receive-append xs ys s

-- An exchange with an acknowledgement leaves the device with the block, and one that failed with or
-- without it.
abbrev pub Delivered : Option Packet → Receiver → Receiver → Receiver → Type 0
Delivered none before after r = (r ≡ before) ⊎ (r ≡ after)
Delivered (some reply) before after r = r ≡ after

-- From a device that has what is before the block, with the block or without.
abbrev HasBlock : Exchanged → Receiver → Receiver → Type 0
HasBlock x before after =
    (s : Delivery)
    → (s.device ≡ before) ⊎ (s.device ≡ after)
    → Delivered x.ack before after (receive x.actions s).device

stored_either :
    (p : Packet) (before after : Receiver) (s : Delivery)
    → receive_block p before ≡ after
    → receive_block p after ≡ after
    → (s.device ≡ before) ⊎ (s.device ≡ after)
    → receive_block p s.device ≡ after
stored_either p before after s once twice (inl e) = ap (receive_block p) e ∙ once
stored_either p before after s once twice (inr e) = ap (receive_block p) e ∙ twice

settled_either :
    (b : Bool) (before after old new : Receiver)
    → (old ≡ before) ⊎ (old ≡ after)
    → new ≡ after
    → ((if b then new else old) ≡ before) ⊎ ((if b then new else old) ≡ after)
settled_either true before after old new either stored = inr stored
settled_either false before after old new either stored = either

on_event-HasBlock :
    (op : BlockOp) (e : Event) (p : Packet) (ms next : ℕ) (acks : BlockAcks) (later : Exchanged)
    (before after : Receiver)
    → receive_block p before ≡ after
    → receive_block p after ≡ after
    → HasBlock later before after
    → HasBlock (on_event op e p ms next acks later) before after
unfolding receive
on_event-HasBlock op send_failed p ms next acks later before after once twice rest s either = either
on_event-HasBlock op (answered reply) p ms next acks later before after once twice rest s either =
    stored_either p before after s once twice either
on_event-HasBlock op was_reset p ms next acks later before after once twice rest s either =
    inr (stored_either p before after s once twice either)
on_event-HasBlock op silence p ms next acks later before after once twice rest s either =
    let sent = record s { device = receive_block p s.device; without = s.device } in
    rest (settle sent) (
      settled_either (s.arrives 0) before after s.device (receive_block p s.device) either
        (stored_either p before after s once twice either))

module _ (op : BlockOp) (events : ℕ → Event) where
  pub exchange-HasBlock :
      (left ms i : ℕ) (p : Packet) (acks : BlockAcks) (before after : Receiver)
      → receive_block p before ≡ after
      → receive_block p after ≡ after
      → HasBlock (exchange op events left ms i p acks) before after
  unfolding exchange receive
  exchange-HasBlock zero ms i p acks before after once twice s either = either
  exchange-HasBlock (suc left) ms i p acks before after once twice s either =
      let removed = remove (insert acks op.token i) op.token in
      on_event-HasBlock op (events i) p ms (i + 1) removed
        (exchange op events left (ms * 2) (i + 1) p removed) before after once twice
        (exchange-HasBlock left (ms * 2) (i + 1) p removed before after once twice) s either

-- What the next state of the loop is: it goes on after the block, with the size or a smaller one.
pub record IsNext (op : BlockOp) (t t' : Transfer) : Type 0 where
  pub advanced : t'.offset ≡ t.offset + t.block_size
  pub inside : t'.offset < length op.payload
  pub aligned : IsAligned t'

abbrev pub Continues : BlockOp → Transfer → Option Transfer → Type 0
Continues op t none = Unit
Continues op t (some t') = IsNext op t t'

module _ (op : BlockOp) (t : Transfer) (a : IsAligned t) (more : more_after op t ≡ true) where
  whole_end : end_of op t ≡ t.offset + t.block_size
  whole_end = ground arith

  multiple_end : (szx : ℕ) → szx ≤ t.szx → end_of op t % size_of szx ≡ 0
  multiple_end szx h = subst (λ n. n % size_of szx ≡ 0) (sym whole_end) (multiple_next t szx a h)

  same_size :
      (mid : ℕ) (tx : Option Sender)
      → IsNext op t (record t { mid = mid; offset = end_of op t; first_ack_tx = tx })
  same_size mid tx = record {
    advanced = whole_end;
    inside = ground arith;
    aligned = record {
      small = a.small;
      size = a.size;
      multiple = multiple_end t.szx (omega arith);
    };
  }

  negotiated-IsNext :
      (size : Option ℕ) (mid : ℕ) (tx : Option Sender)
      → IsNext op t
          (record (negotiated size t) { mid = mid; offset = end_of op t; first_ack_tx = tx })
  negotiated-IsNext none mid tx = same_size mid tx
  negotiated-IsNext (some szx) mid tx = elim (Bool-cases (ltb szx t.szx)) [
    | inl smaller ↦ rw smaller (record {
      advanced = whole_end;
      inside = ground arith;
      aligned = record {
        small = ground (arith, a.small);
        size = refl;
        multiple = multiple_end szx (ground arith);
      };
    })
    | inr same ↦ rw same (same_size mid tx)
  ]

-- The actions send no block, and the loop ends or goes on as `IsNext` says.
abbrev pub IsReaction : BlockOp → Transfer → List Action × Option Transfer → Type 0
IsReaction op t out = ((s : Delivery) → receive out.0 s ≡ s) × Continues op t out.1

receive-first_ack : (tx : Option Sender) (s : Delivery) → receive (first_ack tx) s ≡ s
unfolding receive
receive-first_ack none s = refl
receive-first_ack (some tx) s = refl

module _ (op : BlockOp) (t : Transfer) (a : IsAligned t) (reply : Packet) where
  after_response-IsReaction :
      (goes_on more : Bool) (status : Status)
      → more_after op t ≡ more
      → IsReaction op t (after_response op goes_on more status reply (end_of op t) t)
  unfolding after_response receive
  after_response-IsReaction true true status e = (
    receive-first_ack t.first_ack_tx,
    negotiated-IsNext op t a e (block1_szx_from_response reply) (following_mid t.mid) none,
  )
  after_response-IsReaction true false status e = (λ s. refl, tt)
  after_response-IsReaction false more status e = (λ s. refl, tt)

  pub after_code-IsReaction :
      (code : MessageClass)
      → IsReaction op t (after_code op code reply (more_after op t) (end_of op t) t)
  unfolding after_code receive
  after_code-IsReaction (response status) =
      after_response-IsReaction (is_continue status) (more_after op t) status refl
  after_code-IsReaction empty_class = (λ s. refl, tt)
  after_code-IsReaction (request method) = (λ s. refl, tt)
  after_code-IsReaction (reserved n) = (λ s. refl, tt)

module _ (op : BlockOp) (events : ℕ → Event) (to_bytes : Packet → Option Bytes) where
  pub block_step_encoded :
      (t : Transfer) (i : ℕ) (acks : BlockAcks) (sent : Bytes)
      → to_bytes (block_packet op t) ≡ some sent
      → let x = exchange op events max_retransmit ack_timeout_ms i (block_packet op t) acks in
        block_step op events to_bytes t i acks ≡ follow op x.ack x (more_after op t) (end_of op t) t
  unfolding block_step
  block_step_encoded t i acks sent encoded = rw (encoded, block_step) refl

  pub block_step_refused :
      (t : Transfer) (i : ℕ) (acks : BlockAcks)
      → to_bytes (block_packet op t) ≡ none
      → block_step op events to_bytes t i acks
        ≡ (answer op.response_tx (failure bad_request) ∷ [], (none, (i, acks)))
  unfolding block_step
  block_step_refused t i acks refused = rw (refused, block_step) refl

  pub block_loop_over :
      (fuel : ℕ) (t : Transfer) (i : ℕ) (acks : BlockAcks)
      → ltb t.offset (length op.payload) ≡ false
      → block_loop op events to_bytes (suc fuel) t i acks ≡ ([], (acks, true))
  unfolding block_loop
  block_loop_over fuel t i acks over = rw (over, block_loop) refl

  pub block_loop_inside :
      (fuel : ℕ) (t : Transfer) (i : ℕ) (acks : BlockAcks)
      → ltb t.offset (length op.payload) ≡ true
      → let out = block_step op events to_bytes t i acks in
        block_loop op events to_bytes (suc fuel) t i acks
        ≡ go_on out.0 out.1.0 out.1.1.1
            (λ t'. block_loop op events to_bytes fuel t' out.1.1.0 out.1.1.1)
  unfolding block_loop
  block_loop_inside fuel t i acks inside = rw (inside, block_loop) refl

  follow-Continues :
      (ack : Option Packet) (x : Exchanged) (t : Transfer)
      → IsAligned t
      → Continues op t (follow op ack x (more_after op t) (end_of op t) t).1.0
  unfolding follow
  follow-Continues none x t a = tt
  follow-Continues (some reply) x t a = (after_code-IsReaction op t a reply reply.code).1

  pub block_step-Continues :
      (t : Transfer) (i : ℕ) (acks : BlockAcks)
      → IsAligned t
      → Continues op t (block_step op events to_bytes t i acks).1.0
  block_step-Continues t i acks a = elim (Option-cases (to_bytes (block_packet op t))) [
    | inl refused ↦
        subst (λ out. Continues op t out.1.0) (sym (block_step_refused t i acks refused)) tt
    | inr (sent, encoded) ↦
        let x = exchange op events max_retransmit ack_timeout_ms i (block_packet op t) acks in
        subst (λ out. Continues op t out.1.0) (sym (block_step_encoded t i acks sent encoded))
          (follow-Continues x.ack x t a)
  ]
