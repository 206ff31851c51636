-- ===== src/Client/Receiver.antt =====
-- A device that puts a block-wise write together (RFC 7959): the block of number `num` goes where
-- `num` blocks of its size end, and the image is complete with a block that says no more follow.
use smart_garden_gateway_lwm.Prelude.{
  ℕ, zero, suc, ◌+◌, ◌-◌, ◌*◌, ◌/◌, ◌%◌, ◌^◌, ◌<◌, ◌≤◌, ◌≡◌, refl, sym, ap, ◌∙◌, Bool, true, false,
  not, List, [], ◌∷◌, ◌++◌, Bytes, ◌==◌, arith, length, take, drop, subst, if◌then◌else◌,
}
use smart_garden_gateway_lwm.Coap.{Packet, get_option, block1}
use smart_garden_gateway_lwm.Client.{size_of, fold_bytes, encode_block1, flag}
use smart_garden_gateway_lwm.Client.Packets.{get_block1_put}
use smart_garden_gateway_lwm.Client.Block1.{fold_bytes-encode_block1}
use smart_garden_gateway_lwm.Client.BlockWrite.{
  Action, transmit, wait, Transfer, BlockOp, block_packet, end_of, more_after,
}

pub record Receiver : Type 0 where
  pub image : Bytes
  pub complete : Bool

abbrev pub store_block : ℕ → Bytes → Receiver → Receiver
store_block v chunk r = record {
  image = take (v / 16 * size_of (v % 8)) r.image ++ chunk;
  complete = v / 8 % 2 == 0;
}

abbrev pub receive_value : List Bytes → Bytes → Receiver → Receiver
unfolding fold_bytes
receive_value [] chunk r = r
receive_value (value ∷ values) chunk r = store_block (fold_bytes 0 value) chunk r

unfoldable pub receive_block : Packet → Receiver → Receiver
receive_block p r = receive_value (get_option block1 p) p.payload r

-- The device and what it would be without the packet sent last, and for each transmission that is
-- waited for in vain whether the device gets it.
pub record Delivery : Type 0 where
  pub device : Receiver
  pub without : Receiver
  pub arrives : ℕ → Bool

-- At the end of a wait in vain it shows whether the packet was lost or its acknowledgement.
abbrev pub settle : Delivery → Delivery
settle s =
    let device = if s.arrives 0 then s.device else s.without in
    record { device = device; without = device; arrives = λ i. s.arrives (i + 1) }

-- A packet whose acknowledgement or reset is accepted reached the device.
unfoldable pub receive : List Action → Delivery → Delivery
unfolding receive_block
receive [] s = s
receive (transmit p ∷ actions) s =
    receive actions (record s { device = receive_block p s.device; without = s.device })
receive (wait ms ∷ actions) s = receive actions (settle s)
receive (action ∷ actions) s = receive actions s

module _ {A : Type 0} where
  take_nil : (n : ℕ) → take {A = A} n [] ≡ []
  take_nil zero = refl
  take_nil (suc n) = refl

  pub take-take-drop : (a b : ℕ) (xs : List A) → take a xs ++ take b (drop a xs) ≡ take (a + b) xs
  take-take-drop zero b xs = ap (λ n. take n xs) (let e : b ≡ 0 + b = omega arith in e)
  take-take-drop (suc a) b [] = take_nil b ∙ sym (take_nil (suc a + b))
  take-take-drop (suc a) b (x ∷ xs) =
      ap (◌∷◌ x) (take-take-drop a b xs)
      ∙ ap (λ n. take n (x ∷ xs)) (let e : suc (a + b) ≡ suc a + b = omega arith in e)

  pub take-take : (a b : ℕ) (xs : List A) → a ≤ b → take a (take b xs) ≡ take a xs
  take-take zero b xs h = refl
  take-take (suc a) zero xs h = absurd (omega arith)
  take-take (suc a) (suc b) [] h = refl
  take-take (suc a) (suc b) (x ∷ xs) h = ap (◌∷◌ x) (take-take a b xs (omega arith))

  pub take_all : (n : ℕ) (xs : List A) → length xs ≤ n → take n xs ≡ xs
  take_all zero [] h = refl
  take_all zero (x ∷ xs) h = absurd (omega arith)
  take_all (suc n) [] h = refl
  take_all (suc n) (x ∷ xs) h = ap (◌∷◌ x) (take_all n xs (omega arith))

-- The offset is where a block of the present size begins.
pub record IsAligned (t : Transfer) : Type 0 where
  pub small : t.szx ≤ 5
  pub size : t.block_size ≡ size_of t.szx
  pub multiple : t.offset % size_of t.szx ≡ 0

pub whole_blocks : (szx n : ℕ) → szx ≤ 5 → n % size_of szx ≡ 0 → n / size_of szx * size_of szx ≡ n
whole_blocks zero n h k = omega arith
whole_blocks (suc zero) n h k = omega arith
whole_blocks (suc (suc zero)) n h k = omega arith
whole_blocks (suc (suc (suc zero))) n h k = omega arith
whole_blocks (suc (suc (suc (suc zero)))) n h k = omega arith
whole_blocks (suc (suc (suc (suc (suc zero))))) n h k = omega arith
whole_blocks (suc (suc (suc (suc (suc (suc szx)))))) n h k = absurd (omega arith)

-- Each size is a multiple of the smaller ones.
half_size : (szx n : ℕ) → szx < 5 → n % size_of (suc szx) ≡ 0 → n % size_of szx ≡ 0
half_size zero n h k = omega arith
half_size (suc zero) n h k = omega arith
half_size (suc (suc zero)) n h k = omega arith
half_size (suc (suc (suc zero))) n h k = omega arith
half_size (suc (suc (suc (suc zero)))) n h k = omega arith
half_size (suc (suc (suc (suc (suc szx))))) n h k = absurd (omega arith)

pub smaller_size : (gap a b n : ℕ) → a ≡ gap + b → a ≤ 5 → n % size_of a ≡ 0 → n % size_of b ≡ 0
smaller_size zero a b n e h k =
    subst (λ s. n % size_of s ≡ 0) (let e' : a ≡ b = omega arith in e') k
smaller_size (suc gap) zero b n e h k = absurd (omega arith)
smaller_size (suc gap) (suc a) b n e h k =
    smaller_size gap a b n (omega arith) (omega arith) (half_size a n (omega arith) k)

next_multiple : (szx n : ℕ) → szx ≤ 5 → n % size_of szx ≡ 0 → (n + size_of szx) % size_of szx ≡ 0
next_multiple zero n h k = omega arith
next_multiple (suc zero) n h k = omega arith
next_multiple (suc (suc zero)) n h k = omega arith
next_multiple (suc (suc (suc zero))) n h k = omega arith
next_multiple (suc (suc (suc (suc zero)))) n h k = omega arith
next_multiple (suc (suc (suc (suc (suc zero))))) n h k = omega arith
next_multiple (suc (suc (suc (suc (suc (suc szx)))))) n h k = absurd (omega arith)

-- The end of a whole block is where a block of the same size or a smaller one begins.
pub multiple_next :
    (t : Transfer) (szx : ℕ)
    → IsAligned t
    → szx ≤ t.szx
    → (t.offset + t.block_size) % size_of szx ≡ 0
multiple_next t szx a h =
    smaller_size (t.szx - szx) t.szx szx (t.offset + t.block_size) (omega arith) a.small (
      subst (λ s. (t.offset + s) % size_of t.szx ≡ 0) (sym a.size)
        (next_multiple t.szx t.offset a.small a.multiple))

pub positive_size : (szx : ℕ) → szx ≤ 5 → 0 < size_of szx
positive_size zero h = omega arith
positive_size (suc zero) h = omega arith
positive_size (suc (suc zero)) h = omega arith
positive_size (suc (suc (suc zero))) h = omega arith
positive_size (suc (suc (suc (suc zero)))) h = omega arith
positive_size (suc (suc (suc (suc (suc zero))))) h = omega arith
positive_size (suc (suc (suc (suc (suc (suc szx)))))) h = absurd (omega arith)

few_blocks : (szx n : ℕ) → szx ≤ 5 → n < 2 ^ 24 → n / size_of szx < 2 ^ 20
few_blocks zero n h k = omega arith
few_blocks (suc zero) n h k = omega arith
few_blocks (suc (suc zero)) n h k = omega arith
few_blocks (suc (suc (suc zero))) n h k = omega arith
few_blocks (suc (suc (suc (suc zero)))) n h k = omega arith
few_blocks (suc (suc (suc (suc (suc zero))))) n h k = omega arith
few_blocks (suc (suc (suc (suc (suc (suc szx)))))) n h k = absurd (omega arith)

stored : ℕ → ℕ → Bool → Bytes → Receiver → Receiver
stored num szx more chunk r = record {
  image = take (num * size_of szx) r.image ++ chunk;
  complete = not more;
}

store_value :
    (num szx : ℕ) (more : Bool) (chunk : Bytes) (r : Receiver)
    → szx < 8
    → store_block (num * 16 + flag more * 8 + szx) chunk r ≡ stored num szx more chunk r
unfolding stored
store_value num szx true chunk r h =
    let v = num * 16 + 1 * 8 + szx in
    let number : v / 16 ≡ num = omega arith in
    let size : v % 8 ≡ szx = omega arith in
    let last : v / 8 % 2 ≡ 1 = omega arith in rw (number, size, last) refl
store_value num szx false chunk r h =
    let v = num * 16 + 0 * 8 + szx in
    let number : v / 16 ≡ num = omega arith in
    let size : v % 8 ≡ szx = omega arith in
    let last : v / 8 % 2 ≡ 0 = omega arith in rw (number, size, last) refl

module _ (op : BlockOp) (t : Transfer) (aligned : IsAligned t) where
  block_position : t.offset / t.block_size * size_of t.szx ≡ t.offset
  block_position =
      subst (λ s. t.offset / s * size_of t.szx ≡ t.offset) (sym aligned.size)
        (whole_blocks t.szx t.offset aligned.small aligned.multiple)

  block_number :
      length op.payload < 2 ^ 24 → t.offset < length op.payload → t.offset / t.block_size < 2 ^ 20
  block_number h k =
      subst (λ s. t.offset / s < 2 ^ 20) (sym aligned.size)
        (few_blocks t.szx t.offset aligned.small (omega arith))

  chunk_end :
      (r : Receiver)
      → take t.offset r.image ≡ take t.offset op.payload
      → t.offset < length op.payload
      → take (t.offset / t.block_size * size_of t.szx) r.image
          ++ take (end_of op t - t.offset) (drop t.offset op.payload)
        ≡ take (end_of op t) op.payload
  chunk_end r same k =
      ap (λ n. take n r.image ++ take (end_of op t - t.offset) (drop t.offset op.payload))
        block_position
      ∙ ap (λ front. front ++ take (end_of op t - t.offset) (drop t.offset op.payload)) same
      ∙ take-take-drop t.offset (end_of op t - t.offset) op.payload
      ∙ ap (λ n. take n op.payload)
          (let e : t.offset + (end_of op t - t.offset) ≡ end_of op t = omega arith in e)

  -- A device that has the bytes before the offset then has those before the end of the block.
  pub receive_block_packet :
      (r : Receiver)
      → length op.payload < 2 ^ 24
      → t.offset < length op.payload
      → take t.offset r.image ≡ take t.offset op.payload
      → receive_block (block_packet op t) r
        ≡ record { image = take (end_of op t) op.payload; complete = not (more_after op t) }
  unfolding receive_block receive_value block_packet stored
  receive_block_packet r h k same =
      let below : t.szx < 8 = omega (arith, aligned.small) in
      let num = t.offset / t.block_size in
      let chunk = take (end_of op t - t.offset) (drop t.offset op.payload) in
      let value = encode_block1 num (more_after op t) t.szx in
      ap (λ values. receive_value values chunk r)
        (get_block1_put op.path op.token t.mid chunk op.content_format value)
      ∙ ap (λ v. store_block v chunk r)
          (fold_bytes-encode_block1 num t.szx (more_after op t) (block_number h k) below)
      ∙ store_value num t.szx (more_after op t) chunk r below
      ∙ ap (λ image. record { image = image; complete = not (more_after op t) })
          (chunk_end r same k)
