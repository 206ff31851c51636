-- ===== src/Bootstrap/Cbor.antt =====
-- src/lwm2m/bootstrap.rs: the CBOR encoders (RFC 8949), and their inverse.
use Prim.Native.Nat.{bit_or}
use mathlib.Core.Option
use smart_garden_gateway_lwm.Prelude.{
  ℕ, ◌+◌, ◌*◌, ◌/◌, ◌%◌, ◌^◌, ◌<◌, ◌≡◌, refl, ap, ap₂, ◌∙◌, Option, none, some, [], ◌∷◌, ◌++◌,
  Bytes, leb, ◌==◌, if◌then◌else◌, length, arith, Bool-cases, inl, inr,
}
use smart_garden_gateway_lwm.Prelude.Bits.{or_32}

-- `m | info`, where `m` is `major << 5` on u8.
abbrev pub initial_byte : ℕ → ℕ → ℕ
initial_byte major info = bit_or (major * 32 % 256) info

unfoldable pub cbor_head : ℕ → ℕ → Bytes
cbor_head major val =
    if leb val 23
    then initial_byte major (val % 256) ∷ []
    else if leb val 255
    then initial_byte major 24 ∷ (val % 256) ∷ []
    else if leb val 65535
    then initial_byte major 25 ∷ (val / 256 % 256) ∷ (val % 256) ∷ []
    else initial_byte major 26
      ∷ (val / 16777216 % 256)
      ∷ (val / 65536 % 256)
      ∷ (val / 256 % 256)
      ∷ (val % 256)
      ∷ []

unfoldable pub cbor_uint : ℕ → Bytes
unfolding cbor_head
cbor_uint v = cbor_head 0 v

unfoldable pub cbor_text : Bytes → Bytes
unfolding cbor_head
cbor_text s = cbor_head 3 (length s) ++ s

unfoldable pub cbor_bytes_val : Bytes → Bytes
unfolding cbor_head
cbor_bytes_val b = cbor_head 2 (length b) ++ b

unfoldable pub cbor_array_header : ℕ → Bytes
unfolding cbor_head
cbor_array_header n = cbor_head 4 n

unfoldable pub cbor_map_header : ℕ → Bytes
unfolding cbor_head
cbor_map_header n = cbor_head 5 n

-- The argument behind an initial byte with the given low bits, as RFC 8949 reads it, up to four bytes.
abbrev pub one_byte : Bytes → Option (ℕ × Bytes)
one_byte (a ∷ rest) = some (a, rest)
one_byte rest = none

abbrev pub two_bytes : Bytes → Option (ℕ × Bytes)
two_bytes (a ∷ b ∷ rest) = some (a * 256 + b, rest)
two_bytes rest = none

abbrev pub four_bytes : Bytes → Option (ℕ × Bytes)
four_bytes (a ∷ b ∷ c ∷ d ∷ rest) = some (a * 16777216 + b * 65536 + c * 256 + d, rest)
four_bytes rest = none

abbrev pub read_argument : ℕ → Bytes → Option (ℕ × Bytes)
read_argument info rest =
    if leb info 23
    then some (info, rest)
    else if info == 24
    then one_byte rest
    else if info == 25
    then two_bytes rest
    else if info == 26
    then four_bytes rest
    else none

-- The major type, the argument and what follows.
unfoldable pub read_head : Bytes → Option (ℕ × (ℕ × Bytes))
read_head [] = none
read_head (b ∷ rest) = Option.map (λ a. (b / 32, a)) (read_argument (b % 32) rest)

pub initial_byte_sum :
    (major info : ℕ) → major < 8 → info < 32 → initial_byte major info ≡ major * 32 + info
initial_byte_sum major info h k =
    ap (λ m. bit_or m info) (let e : major * 32 % 256 ≡ major * 32 = omega arith in e)
    ∙ or_32 major info k

read_head_byte :
    (major info : ℕ) (rest : Bytes)
    → major < 8
    → info < 32
    → read_head (initial_byte major info ∷ rest)
      ≡ Option.map (λ a. (major, a)) (read_argument info rest)
unfolding read_head
read_head_byte major info rest h k =
    let sum = initial_byte_sum major info h k in
    let high : initial_byte major info / 32 ≡ major = omega (arith, sum) in
    let low : initial_byte major info % 32 ≡ info = omega (arith, sum) in
    ap₂ (λ m i. Option.map (λ a. (m, a)) (read_argument i rest)) high low

-- The head of an item, of any major type and with an argument of 32 bits, is read back, and what
-- follows it is left.
pub read_head-cbor_head :
    (major val : ℕ) (rest : Bytes)
    → major < 8
    → val < 2 ^ 32
    → read_head (cbor_head major val ++ rest) ≡ some (major, (val, rest))
unfolding cbor_head
read_head-cbor_head major val rest h k = elim (Bool-cases (leb val 23)) [
  | inl tiny ↦
      let small : val % 256 ≡ val = ground arith in
      rw (tiny, cbor_head, small) (read_head_byte major val rest h (ground arith) ∙ rw tiny refl)
  | inr above23 ↦ elim (Bool-cases (leb val 255)) [
    | inl byte ↦
        rw (above23, byte, cbor_head)
          (read_head_byte major 24 ((val % 256) ∷ rest) h (omega arith)
            ∙ ap (λ v. some (major, (v, rest))) (ground arith))
    | inr above255 ↦ elim (Bool-cases (leb val 65535)) [
      | inl short ↦
          rw (above23, above255, short, cbor_head)
            (read_head_byte major 25 ((val / 256 % 256) ∷ (val % 256) ∷ rest) h (omega arith)
              ∙ ap (λ v. some (major, (v, rest))) (ground arith))
      | inr long ↦
          rw (above23, above255, long, cbor_head)
            (read_head_byte major 26
                ((val / 16777216 % 256)
                  ∷ (val / 65536 % 256)
                  ∷ (val / 256 % 256)
                  ∷ (val % 256)
                  ∷ rest)
                h (omega arith)
              ∙ ap (λ v. some (major, (v, rest))) (omega arith))
    ]
  ]
]
