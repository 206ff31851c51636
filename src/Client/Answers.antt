-- ===== src/Client/Answers.antt =====
-- src/lwm2m/client.rs: a write in blocks comes to an end, with one answer to the caller.
use smart_garden_gateway_lwm.Prelude.{
  ℕ, zero, suc, ◌+◌, ◌-◌, ◌*◌, ◌<◌, ◌≤◌, ◌≡◌, ◌≢◌, refl, sym, inl, inr, Bool, true, false, Option,
  none, some, List, [], ◌∷◌, ◌++◌, Bytes, bytes_key, arith, length, if◌then◌else◌, Option-cases,
  subst, ◌==◌,
}
use smart_garden_gateway_lwm.Dict.{get, insert, remove}
use smart_garden_gateway_lwm.Dict.Laws.{get-remove}
use smart_garden_gateway_lwm.Model.{Sender}
use smart_garden_gateway_lwm.Coap.{
  Packet, Status, MessageClass, response, empty_class, request, reserved,
}
use smart_garden_gateway_lwm.Client.{max_retransmit, ack_timeout_ms}
use smart_garden_gateway_lwm.Client.BlockWrite.{
  Event, send_failed, answered, was_reset, silence, Action, transmit, wait, answer,
  mark_device_offline, Transfer, BlockAcks, BlockOp, Exchanged, exchange, on_event, go_on,
  after_response, after_code, is_continue, block_packet, block_step, block_loop, first_transfer,
  dispatch_block_write, end_of, more_after, follow, first_ack,
}
use smart_garden_gateway_lwm.Client.Receiver.{IsAligned, positive_size}
use smart_garden_gateway_lwm.Client.Reactions.{
  Continues, block_step_encoded, block_step_refused, block_loop_inside, block_step-Continues,
}

-- How often the sender is used.
unfoldable pub answers_to : Sender → List Action → ℕ
answers_to tx [] = 0
answers_to tx (answer s result ∷ actions) =
    let rest = answers_to tx actions in if s == tx then suc rest else rest
answers_to tx (action ∷ actions) = answers_to tx actions

answers_to-append :
    (tx : Sender) (xs ys : List Action)
    → answers_to tx (xs ++ ys) ≡ answers_to tx xs + answers_to tx ys
unfolding answers_to
answers_to-append tx [] ys = omega arith
answers_to-append tx (transmit p ∷ xs) ys = answers_to-append tx xs ys
answers_to-append tx (wait ms ∷ xs) ys = answers_to-append tx xs ys
answers_to-append tx (answer s result ∷ xs) ys = ground (arith, answers_to-append tx xs ys)
answers_to-append tx (mark_device_offline addr ∷ xs) ys = answers_to-append tx xs ys

-- The first acknowledgement has a sender of its own.
abbrev pub IsOther : Sender → Option Sender → Type 0
IsOther tx none = Unit
IsOther tx (some first) = first ≢ tx

-- An answer when there is nothing more to come, none when there is.
abbrev one_if_none {ℓ} : {A : Type ℓ} → Option A → ℕ
one_if_none none = 1
one_if_none (some a) = 0

module _ (op : BlockOp) where
  abbrev IsOpen : Exchanged → Type 0
  IsOpen x =
      (answers_to op.response_tx x.actions ≡ one_if_none x.ack) × (get x.acks op.token ≡ none)

  on_event-IsOpen :
      (e : Event) (p : Packet) (ms next : ℕ) (acks : BlockAcks) (later : Exchanged)
      → get acks op.token ≡ none
      → IsOpen later
      → IsOpen (on_event op e p ms next acks later)
  unfolding answers_to
  on_event-IsOpen send_failed p ms next acks later free rest = (ground arith, free)
  on_event-IsOpen (answered reply) p ms next acks later free rest = (refl, free)
  on_event-IsOpen was_reset p ms next acks later free rest = (ground arith, free)
  on_event-IsOpen silence p ms next acks later free rest = rest

  exchange-IsOpen :
      (events : ℕ → Event) (left ms i : ℕ) (p : Packet) (acks : BlockAcks)
      → get acks op.token ≡ none
      → IsOpen (exchange op events left ms i p acks)
  unfolding exchange answers_to
  exchange-IsOpen events zero ms i p acks free = (ground arith, free)
  exchange-IsOpen events (suc left) ms i p acks free =
      let removed = remove (insert acks op.token i) op.token in
      let gone : get removed op.token ≡ none =
        ground (arith, get-remove (insert acks op.token i) op.token op.token) in
      on_event-IsOpen (events i) p ms (i + 1) removed
        (exchange op events left (ms * 2) (i + 1) p removed) gone
        (exchange-IsOpen events left (ms * 2) (i + 1) p removed gone)

  abbrev NextOther : Option Transfer → Type 0
  NextOther none = Unit
  NextOther (some t) = IsOther op.response_tx t.first_ack_tx

  -- One answer if the loop is over, none if it goes on.
  abbrev IsSettled : List Action × Option Transfer → Type 0
  IsSettled out = (answers_to op.response_tx out.0 ≡ one_if_none out.1) × NextOther out.1

  answers_to-first_ack :
      (tx : Option Sender)
      → IsOther op.response_tx tx
      → answers_to op.response_tx (first_ack tx) ≡ 0
  unfolding answers_to
  answers_to-first_ack none other = refl
  answers_to-first_ack (some tx) other = ground (arith, other)

  module _ (t : Transfer) (other : IsOther op.response_tx t.first_ack_tx) (reply : Packet)
      (end : ℕ) where
    after_response-IsSettled :
        (goes_on more : Bool) (status : Status)
        → IsSettled (after_response op goes_on more status reply end t)
    unfolding after_response answers_to
    after_response-IsSettled true true status = (answers_to-first_ack t.first_ack_tx other, tt)
    after_response-IsSettled true false status = (ground arith, tt)
    after_response-IsSettled false more status = (ground arith, tt)

    after_code-IsSettled :
        (code : MessageClass) (more : Bool) → IsSettled (after_code op code reply more end t)
    unfolding after_code answers_to
    after_code-IsSettled (response status) more =
        after_response-IsSettled (is_continue status) more status
    after_code-IsSettled empty_class more = (ground arith, tt)
    after_code-IsSettled (request method) more = (ground arith, tt)
    after_code-IsSettled (reserved n) more = (ground arith, tt)

  abbrev IsStepSettled : List Action × (Option Transfer × (ℕ × BlockAcks)) → Type 0
  IsStepSettled out = IsSettled (out.0, out.1.0) × (get out.1.1.1 op.token ≡ none)

  follow-IsStepSettled :
      (ack : Option Packet) (x : Exchanged) (more : Bool) (end : ℕ) (t : Transfer)
      → IsOther op.response_tx t.first_ack_tx
      → answers_to op.response_tx x.actions ≡ one_if_none ack
      → get x.acks op.token ≡ none
      → IsStepSettled (follow op ack x more end t)
  unfolding follow
  follow-IsStepSettled none x more end t other one free = ((one, tt), free)
  follow-IsStepSettled (some reply) x more end t other one free =
      let out = after_code op reply.code reply more end t in
      let (settled, next) = after_code-IsSettled t other reply end reply.code more in
      ((omega (arith, answers_to-append op.response_tx x.actions out.0, settled, one), next), free)

module _ (op : BlockOp) (events : ℕ → Event) (to_bytes : Packet → Option Bytes) where
  block_step-IsStepSettled :
      (t : Transfer) (i : ℕ) (acks : BlockAcks)
      → IsOther op.response_tx t.first_ack_tx
      → get acks op.token ≡ none
      → IsStepSettled op (block_step op events to_bytes t i acks)
  unfolding answers_to
  block_step-IsStepSettled t i acks other free =
      elim (Option-cases (to_bytes (block_packet op t))) [
        | inl refused ↦
            subst (IsStepSettled op) (sym (block_step_refused op events to_bytes t i acks refused))
              ((ground arith, tt), free)
        | inr (sent, encoded) ↦
            let p = block_packet op t in
            let x = exchange op events max_retransmit ack_timeout_ms i p acks in
            let (one, gone) =
              exchange-IsOpen op events max_retransmit ack_timeout_ms i p acks free in
            subst (IsStepSettled op)
              (sym (block_step_encoded op events to_bytes t i acks sent encoded))
              (follow-IsStepSettled op x.ack x (more_after op t) (end_of op t) t other one gone)
      ]

-- The loop is over, with one answer and no sender left in the map.
abbrev pub IsAnswered : BlockOp → List Action × (BlockAcks × Bool) → Type 0
IsAnswered op out =
    (out.1.1 ≡ true) × ((answers_to op.response_tx out.0 ≡ 1) × (get out.1.0 op.token ≡ none))

module _ (op : BlockOp) where
  go_on-IsAnswered :
      (actions : List Action) (next : Option Transfer) (acks : BlockAcks)
      (later : Transfer → List Action × (BlockAcks × Bool))
      → answers_to op.response_tx actions ≡ one_if_none next
      → get acks op.token ≡ none
      → ((t : Transfer) → next ≡ some t → IsAnswered op (later t))
      → IsAnswered op (go_on actions next acks later)
  go_on-IsAnswered actions none acks later one free rest = (refl, (one, free))
  go_on-IsAnswered actions (some t) acks later one free rest =
      let (over, (answered_once, gone)) = rest t refl in
      (
        over,
        (
          omega (arith, answers_to-append op.response_tx actions (later t).0, one, answered_once),
          gone,
        ),
      )

  module _ (events : ℕ → Event) (to_bytes : Packet → Option Bytes) where
    block_loop-IsAnswered :
        (fuel : ℕ) (t : Transfer) (i : ℕ) (acks : BlockAcks)
        → length op.payload - t.offset ≤ fuel
        → t.offset < length op.payload
        → IsAligned t
        → IsOther op.response_tx t.first_ack_tx
        → get acks op.token ≡ none
        → IsAnswered op (block_loop op events to_bytes fuel t i acks)
    block_loop-IsAnswered zero t i acks enough inside a other free = absurd (omega arith)
    block_loop-IsAnswered (suc fuel) t i acks enough inside a other free =
        let out = block_step op events to_bytes t i acks in
        let next = block_step-Continues op events to_bytes t i acks a in
        let (settled, gone) = block_step-IsStepSettled op events to_bytes t i acks other free in
        subst (IsAnswered op)
          (sym (block_loop_inside op events to_bytes fuel t i acks (ground arith)))
          (go_on-IsAnswered out.0 out.1.0 out.1.1.1
            (λ t'. block_loop op events to_bytes fuel t' out.1.1.0 out.1.1.1) settled.0 gone
            (λ t' e.
              let reached = subst (Continues op t) e next in
              block_loop-IsAnswered fuel t' out.1.1.0 out.1.1.1
                (omega (arith, reached.advanced, a.size, positive_size t.szx a.small))
                reached.inside reached.aligned (subst (NextOther op) e settled.1) gone))

    -- With fuel for each byte, a write of a payload that is not empty comes to an end whatever the
    -- device does and the network loses: the caller's sender is used exactly once, if the sender for
    -- the first acknowledgement is another, and no entry of the token is left in the map of waiting
    -- senders, if there was none at the start.
    pub dispatch_block_write-IsAnswered :
        (fuel mid : ℕ) (first_ack_tx : Option Sender) (acks : BlockAcks)
        → 0 < length op.payload
        → length op.payload ≤ fuel
        → IsOther op.response_tx first_ack_tx
        → get acks op.token ≡ none
        → IsAnswered op (dispatch_block_write op events to_bytes fuel mid first_ack_tx acks)
    unfolding dispatch_block_write
    dispatch_block_write-IsAnswered fuel mid first_ack_tx acks some_byte enough other free =
        block_loop-IsAnswered fuel (first_transfer mid first_ack_tx) 0 acks (omega arith) some_byte
          (record { small = omega arith; size = refl; multiple = refl }) other free
