-- ===== src/Client/Block1.antt =====
-- src/lwm2m/client.rs: message identifiers and the value of the Block1 option.
use Prim.Native.Nat.{bit_or}
use smart_garden_gateway_lwm.Prelude.{
  ℕ, ◌+◌, ◌-◌, ◌*◌, ◌/◌, ◌%◌, ◌^◌, ◌<◌, ◌≤◌, ◌≡◌, ◌≢◌, ap, ◌∙◌, Bool, true, false, [], ◌∷◌, Bytes,
  leb, if◌then◌else◌, arith, Bool-cases, inl, inr,
}
use smart_garden_gateway_lwm.Prelude.Bits.{or_eight, or_sixteen, or_256}
use smart_garden_gateway_lwm.Client.{block1_value, encode_block1, fold_bytes, next_mid, flag}

-- A message identifier is never 0 after the first, and takes every other value of its range in turn.
pub next_mid_lem :
    (counter : ℕ)
    → counter < 2 ^ 16
    → ((next_mid counter).0 ≡ counter)
      × (((next_mid counter).1 ≢ 0) × ((next_mid counter).1 ≡ counter % (2 ^ 16 - 1) + 1))
unfolding next_mid
next_mid_lem counter h = ground arith

block1_value_sum :
    (num szx : ℕ) (more : Bool)
    → szx < 8
    → block1_value num more szx ≡ num * 16 + flag more * 8 + szx
block1_value_sum num szx true h =
    ap (λ v. bit_or v szx) (or_sixteen num 8 (omega arith))
    ∙ ap (λ v. bit_or v szx) (let e : num * 16 + 8 ≡ (num * 2 + 1) * 8 = omega arith in e)
    ∙ or_eight (num * 2 + 1) szx h
    ∙ omega arith
block1_value_sum num szx false h =
    ap (λ v. bit_or v szx) (or_sixteen num 0 (omega arith))
    ∙ ap (λ v. bit_or v szx) (let e : num * 16 + 0 ≡ (num * 2) * 8 = omega arith in e)
    ∙ or_eight (num * 2) szx h
    ∙ omega arith

fold_one : (a : ℕ) → a < 256 → fold_bytes 0 (a ∷ []) ≡ a
unfolding fold_bytes
fold_one a h = or_256 0 a h ∙ omega arith

fold_two : (a b : ℕ) → a < 256 → b < 256 → fold_bytes 0 (a ∷ b ∷ []) ≡ a * 256 + b
unfolding fold_bytes
fold_two a b h k =
    ap (λ v. bit_or v b)
      (ap (λ v. v * 256 % 2 ^ 64) (fold_one a h)
        ∙ (let e : a * 256 % 2 ^ 64 ≡ a * 256 = omega arith in e))
    ∙ or_256 a b k

fold_three :
    (a b c : ℕ)
    → a < 256
    → b < 256
    → c < 256
    → fold_bytes 0 (a ∷ b ∷ c ∷ []) ≡ a * 65536 + b * 256 + c
unfolding fold_bytes
fold_three a b c h k l =
    ap (λ v. bit_or v c)
      (ap (λ v. v * 256 % 2 ^ 64) (fold_two a b h k)
        ∙ (let e : (a * 256 + b) * 256 % 2 ^ 64 ≡ (a * 256 + b) * 256 = omega arith in e))
    ∙ or_256 (a * 256 + b) c l
    ∙ omega arith

-- The shortest big-endian form of a number below 2^24 is read back.
abbrev shortest : ℕ → Bytes
shortest val =
    if leb val 255
    then (val % 256) ∷ []
    else if leb val 65535
    then (val / 256 % 256) ∷ (val % 256) ∷ []
    else (val / 65536 % 256) ∷ (val / 256 % 256) ∷ (val % 256) ∷ []

fold_bytes-shortest : (val : ℕ) → val < 2 ^ 24 → fold_bytes 0 (shortest val) ≡ val
fold_bytes-shortest val h = elim (Bool-cases (leb val 255)) [
  | inl one ↦ rw one (fold_one (val % 256) (omega arith) ∙ ground arith)
  | inr longer ↦ elim (Bool-cases (leb val 65535)) [
    | inl two ↦
        rw (longer, two)
          (fold_two (val / 256 % 256) (val % 256) (omega arith) (omega arith) ∙ ground arith)
    | inr three ↦
        rw (longer, three)
          (fold_three (val / 65536 % 256) (val / 256 % 256) (val % 256) (omega arith) (omega arith)
              (omega arith)
            ∙ omega arith)
  ]
]

flag_bit : (more : Bool) → flag more ≤ 1
flag_bit true = omega arith
flag_bit false = omega arith

-- A block number of 20 bits is read back with the flag and the size.
pub fold_bytes-encode_block1 :
    (num szx : ℕ) (more : Bool)
    → num < 2 ^ 20
    → szx < 8
    → fold_bytes 0 (encode_block1 num more szx) ≡ num * 16 + flag more * 8 + szx
unfolding encode_block1
fold_bytes-encode_block1 num szx more h k =
    let sum = block1_value_sum num szx more k in
    fold_bytes-shortest (block1_value num more szx) (omega (arith, sum, flag_bit more)) ∙ sum
