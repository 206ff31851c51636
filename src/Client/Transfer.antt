-- ===== src/Client/Transfer.antt =====
-- src/lwm2m/client.rs: what a device assembles from the blocks, some of which are lost and repeated.
use smart_garden_gateway_lwm.Prelude.{
  ℕ, zero, suc, ◌^◌, ◌<◌, ◌≡◌, refl, sym, ap, ◌∙◌, inl, inr, Bool, true, false, not, Option, none,
  some, List, [], Bytes, ltb, arith, length, take, Bool-cases, Option-cases, subst,
}
use smart_garden_gateway_lwm.Model.{Sender}
use smart_garden_gateway_lwm.Coap.{Packet}
use smart_garden_gateway_lwm.Client.{max_retransmit, ack_timeout_ms}
use smart_garden_gateway_lwm.Prelude.{bytes_key}
use smart_garden_gateway_lwm.Client.BlockWrite.{
  Event, Action, Transfer, BlockAcks, BlockOp, Exchanged, exchange, go_on, after_code, block_packet,
  block_step, block_loop, first_transfer, dispatch_block_write, end_of, more_after, follow,
}
use smart_garden_gateway_lwm.Client.Receiver.{
  Receiver, Delivery, receive, receive_block_packet, IsAligned, take-take, take_all,
}
use smart_garden_gateway_lwm.Client.Reactions.{
  receive-append, Delivered, exchange-HasBlock, Continues, after_code-IsReaction,
  block_step_encoded, block_step_refused, block_loop_over, block_loop_inside,
}

-- What the device has is a beginning of the payload, and all of it if it is complete.
pub record IsSound (op : BlockOp) (r : Receiver) : Type 0 where
  pub some_prefix : (n : ℕ) × (r.image ≡ take n op.payload)
  pub whole : r.complete ≡ true → r.image ≡ op.payload

-- When the loop goes on, the device has all that is before the next block.
abbrev HasAll : BlockOp → Option Transfer → Receiver → Type 0
HasAll op none r = IsSound op r
HasAll op (some t) r = IsSound op r × (take t.offset r.image ≡ take t.offset op.payload)

module _ (op : BlockOp) (t : Transfer) where
  abbrev stored_block : Receiver
  stored_block = record { image = take (end_of op t) op.payload; complete = not (more_after op t) }

  stored_block-IsSound : IsSound op stored_block
  stored_block-IsSound = record {
    some_prefix = (end_of op t, refl);
    whole = λ last. take_all (end_of op t) op.payload (ground arith);
  }

  stored_block-HasAll : (next : Option Transfer) → Continues op t next → HasAll op next stored_block
  stored_block-HasAll none tt = stored_block-IsSound
  stored_block-HasAll (some t') next = (
    stored_block-IsSound,
    take-take t'.offset (end_of op t) op.payload (omega (arith, next.advanced, next.inside)),
  )

  -- A step from a device that has what is before the block.
  abbrev IsStep : Delivery → List Action × (Option Transfer × (ℕ × BlockAcks)) → Type 0
  IsStep s out = HasAll op out.1.0 (receive out.0 s).device × Continues op t out.1.0

  follow-IsStep :
      (ack : Option Packet) (x : Exchanged) (s : Delivery)
      → IsAligned t
      → IsSound op s.device
      → Delivered ack s.device stored_block (receive x.actions s).device
      → IsStep s (follow op ack x (more_after op t) (end_of op t) t)
  unfolding follow
  follow-IsStep none x s a sound (inl e) = (subst (IsSound op) (sym e) sound, tt)
  follow-IsStep none x s a sound (inr e) = (subst (IsSound op) (sym e) stored_block-IsSound, tt)
  follow-IsStep (some reply) x s a sound e =
      let out = after_code op reply.code reply (more_after op t) (end_of op t) t in
      let (quiet, next) = after_code-IsReaction op t a reply reply.code in
      (
        subst (HasAll op out.1)
            (sym (
              ap (λ d. d.device) (receive-append x.actions out.0 s ∙ quiet (receive x.actions s))
              ∙ e))
            (stored_block-HasAll out.1 next),
        next,
      )

  module _ (events : ℕ → Event) (to_bytes : Packet → Option Bytes) where
    block_step-IsStep :
        (s : Delivery) (i : ℕ) (acks : BlockAcks)
        → IsAligned t
        → IsSound op s.device
        → take t.offset s.device.image ≡ take t.offset op.payload
        → t.offset < length op.payload
        → length op.payload < 2 ^ 24
        → IsStep s (block_step op events to_bytes t i acks)
    unfolding receive
    block_step-IsStep s i acks a sound same inside fits =
        elim (Option-cases (to_bytes (block_packet op t))) [
          | inl refused ↦
              subst (IsStep s) (sym (block_step_refused op events to_bytes t i acks refused))
                (sound, tt)
          | inr (sent, encoded) ↦
              let p = block_packet op t in
              let x = exchange op events max_retransmit ack_timeout_ms i p acks in
              subst (IsStep s) (sym (block_step_encoded op events to_bytes t i acks sent encoded)) (
                follow-IsStep x.ack x s a sound (
                  exchange-HasBlock op events max_retransmit ack_timeout_ms i p acks s.device
                    stored_block (receive_block_packet op t a s.device fits inside same)
                    (receive_block_packet op t a stored_block fits inside
                      (take-take t.offset (end_of op t) op.payload (omega arith)))
                    s (inl refl)))
        ]

go_on-IsSound :
    (op : BlockOp) (actions : List Action) (next : Option Transfer) (acks : BlockAcks)
    (later : Transfer → List Action × (BlockAcks × Bool)) (s : Delivery)
    → HasAll op next (receive actions s).device
    → ((t : Transfer) → next ≡ some t → IsSound op (receive (later t).0 (receive actions s)).device)
    → IsSound op (receive (go_on actions next acks later).0 s).device
go_on-IsSound op actions none acks later s all rest = all
go_on-IsSound op actions (some t) acks later s all rest =
    subst (λ d. IsSound op d.device) (sym (receive-append actions (later t).0 s)) (rest t refl)

-- A device that has nothing yet.
abbrev pub waiting : (ℕ → Bool) → Delivery
waiting arrives =
    let nothing : Receiver = record { image = []; complete = false } in
    record { device = nothing; without = nothing; arrives = arrives }

module _ (op : BlockOp) (events : ℕ → Event) (to_bytes : Packet → Option Bytes) where
  block_loop-IsSound :
      (fuel : ℕ) (t : Transfer) (s : Delivery) (i : ℕ) (acks : BlockAcks)
      → IsAligned t
      → IsSound op s.device
      → take t.offset s.device.image ≡ take t.offset op.payload
      → length op.payload < 2 ^ 24
      → IsSound op (receive (block_loop op events to_bytes fuel t i acks).0 s).device
  unfolding block_loop receive
  block_loop-IsSound zero t s i acks a sound same fits = sound
  block_loop-IsSound (suc fuel) t s i acks a sound same fits =
      elim (Bool-cases (ltb t.offset (length op.payload))) [
        | inr over ↦
            subst (λ out. IsSound op (receive out.0 s).device)
              (sym (block_loop_over op events to_bytes fuel t i acks over)) sound
        | inl inside ↦
            let out = block_step op events to_bytes t i acks in
            let (all, next) =
              block_step-IsStep op t events to_bytes s i acks a sound same (ground arith) fits in
            let s' = receive out.0 s in
            subst (λ out. IsSound op (receive out.0 s).device)
              (sym (block_loop_inside op events to_bytes fuel t i acks inside))
              (go_on-IsSound op out.0 out.1.0 out.1.1.1
                (λ t'. block_loop op events to_bytes fuel t' out.1.1.0 out.1.1.1) s all
                (λ t' e.
                  let found = subst (λ next. HasAll op next s'.device) e all in
                  let reached = subst (Continues op t) e next in
                  block_loop-IsSound fuel t' s' out.1.1.0 out.1.1.1 reached.aligned found.0 found.1
                    fits))
      ]

  -- Whatever is reset or negotiated, and whichever of the packets without an acknowledgement are lost,
  -- what a device has put together from the blocks of a payload of less than 2^24 bytes is a beginning
  -- of the payload, and it is the whole payload once the block that is marked as the last has
  -- arrived. The packets that arrive do so in order, each before the wait for it is over, and a packet
  -- whose acknowledgement or reset is accepted has arrived: no answer to an earlier block is taken for
  -- it.
  pub dispatch_block_write-IsSound :
      (fuel mid : ℕ) (first_ack_tx : Option Sender) (acks : BlockAcks) (arrives : ℕ → Bool)
      → length op.payload < 2 ^ 24
      → IsSound op
          (receive
            (dispatch_block_write op events to_bytes fuel mid first_ack_tx acks).0
            (waiting arrives)).device
  unfolding dispatch_block_write
  dispatch_block_write-IsSound fuel mid first_ack_tx acks arrives fits =
      block_loop-IsSound fuel (first_transfer mid first_ack_tx) (waiting arrives) 0 acks
        (record { small = omega arith; size = refl; multiple = refl })
        (record { some_prefix = (0, refl); whole = λ e. cc }) refl fits
