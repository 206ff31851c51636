-- ===== src/Bootstrap/Der/Encoding.antt =====
-- src/lwm2m/bootstrap.rs: the reading of items that were written by the rules of DER, and the check
-- of the extended key usage on such an extension.
use smart_garden_gateway_lwm.Prelude.{
  ℕ, zero, suc, ◌/◌, ◌%◌, ◌^◌, ◌≤◌, ◌<◌, ◌||◌, ◌≡◌, refl, ap, ◌∙◌, false, some, List, [], ◌∷◌, ◌++◌,
  Bytes, ltb, ◌==◌, if◌then◌else◌, length, take, drop, arith, Bool-cases, inl, inr, All,
  length-append, drop-append,
}
use smart_garden_gateway_lwm.Bootstrap.Der.{DerItem}
use smart_garden_gateway_lwm.Bootstrap.Der.Reader.{be_value, cut_value, long_value, read_item}
use smart_garden_gateway_lwm.Bootstrap.Der.Search.{items_of, items_after}

-- A length in the fewest octets.
unfoldable pub encode_length : ℕ → Bytes
encode_length n =
    if ltb n 128
    then n ∷ []
    else if ltb n 256
    then 129 ∷ n ∷ []
    else if ltb n 65536
    then 130 ∷ (n / 256) ∷ (n % 256) ∷ []
    else if ltb n 16777216
    then 131 ∷ (n / 65536) ∷ (n / 256 % 256) ∷ (n % 256) ∷ []
    else 132 ∷ (n / 16777216) ∷ (n / 65536 % 256) ∷ (n / 256 % 256) ∷ (n % 256) ∷ []

unfoldable pub encode_item : DerItem → Bytes
unfolding encode_length
encode_item (tag, value) = tag ∷ (encode_length (length value) ++ value)

unfoldable pub encode_items : List DerItem → Bytes
unfolding encode_item
encode_items [] = []
encode_items (item ∷ items) = encode_item item ++ encode_items items

pub append_assoc : (a b c : Bytes) → (a ++ b) ++ c ≡ a ++ (b ++ c)
append_assoc [] b c = refl
append_assoc (x ∷ a) b c = ap (λ t. x ∷ t) (append_assoc a b c)

pub take-append : (v rest : Bytes) → take (length v) (v ++ rest) ≡ v
take-append [] rest = refl
take-append (b ∷ v) rest = ap (λ t. b ∷ t) (take-append v rest)

cut_whole :
    (tag len : ℕ) (v rest : Bytes)
    → len ≡ length v
    → cut_value tag len (v ++ rest) ≡ some ((tag, v), rest)
cut_whole tag len v rest e =
    let there : ltb (length (v ++ rest)) (length v) ≡ false =
      ground (arith, length-append v rest) in
    ap (λ n. cut_value tag n (v ++ rest)) e
    ∙ rw (there, take-append v rest, drop-append v rest 0 (length v) (omega arith)) refl

long_whole :
    (tag n : ℕ) (octets v rest : Bytes)
    → 0 < n
    → n ≤ 4
    → n ≡ length octets
    → be_value 0 octets ≡ length v
    → long_value tag n (octets ++ (v ++ rest)) ≡ some ((tag, v), rest)
unfolding long_value
long_whole tag n octets v rest some_ few e value =
    let good : ((n == 0) || (ltb 4 n || ltb (length (octets ++ (v ++ rest))) n)) ≡ false =
      ground (arith, length-append octets (v ++ rest)) in
    let front : take n (octets ++ (v ++ rest)) ≡ octets =
      ap (λ m. take m (octets ++ (v ++ rest))) e ∙ take-append octets (v ++ rest) in
    let back : drop n (octets ++ (v ++ rest)) ≡ v ++ rest =
      drop-append octets (v ++ rest) 0 n (omega (arith, e)) in
    rw (long_value, good, front, back) (cut_whole tag (be_value 0 octets) v rest value)

-- The reader on a tag and a length.
read_encoded :
    (tag : ℕ) (v rest : Bytes)
    → length v < 2 ^ 32
    → read_item (tag ∷ (encode_length (length v) ++ (v ++ rest))) ≡ some ((tag, v), rest)
unfolding read_item encode_length be_value
read_encoded tag v rest h =
    let n = length v in
    elim (Bool-cases (ltb n 128)) [
      | inl a ↦ rw (encode_length, a) (rw a (cut_whole tag n v rest refl))
      | inr a ↦ elim (Bool-cases (ltb n 256)) [
        | inl b ↦
            rw (encode_length, a, b)
              (long_whole tag 1 (n ∷ []) v rest (omega arith) (omega arith) refl (omega arith))
        | inr b ↦ elim (Bool-cases (ltb n 65536)) [
          | inl c ↦
              rw (encode_length, a, b, c)
                (long_whole tag 2 ((n / 256) ∷ (n % 256) ∷ []) v rest (omega arith) (omega arith)
                  refl (omega arith))
          | inr c ↦ elim (Bool-cases (ltb n 16777216)) [
            | inl d ↦
                rw (encode_length, a, b, c, d)
                  (long_whole tag 3 ((n / 65536) ∷ (n / 256 % 256) ∷ (n % 256) ∷ []) v rest
                    (omega arith) (omega arith) refl (omega arith))
            | inr d ↦
                rw (encode_length, a, b, c, d)
                  (long_whole tag 4
                    ((n / 16777216) ∷ (n / 65536 % 256) ∷ (n / 256 % 256) ∷ (n % 256) ∷ []) v rest
                    (omega arith) (omega arith) refl (omega arith))
          ]
        ]
      ]
    ]

-- An item that is written by the rules of DER, with a value of less than 2 ^ 32 bytes, is read back,
-- and what follows it is left.
pub read_item-encode_item :
    (tag : ℕ) (value rest : Bytes)
    → length value < 2 ^ 32
    → read_item (encode_item (tag, value) ++ rest) ≡ some ((tag, value), rest)
unfolding encode_item
read_item-encode_item tag value rest h =
    ap (λ t. read_item (tag ∷ t)) (append_assoc (encode_length (length value)) value rest)
    ∙ read_encoded tag value rest h

abbrev pub IsShort : DerItem → Type 0
IsShort (tag, value) = length value < 2 ^ 32

pub items_of-encode_items :
    (fuel : ℕ) (items : List DerItem)
    → length items < fuel
    → All IsShort items
    → items_of fuel (encode_items items) ≡ items
unfolding items_of encode_items read_item
items_of-encode_items zero items h short = absurd (omega arith)
items_of-encode_items (suc fuel) [] h short = refl
items_of-encode_items (suc fuel) ((tag, value) ∷ items) h (s, short) =
    ap (items_after (items_of fuel)) (read_item-encode_item tag value (encode_items items) s)
    ∙ ap (λ t. (tag, value) ∷ t) (items_of-encode_items fuel items (omega arith) short)

pub length-encode_items : (items : List DerItem) → length items ≤ length (encode_items items)
unfolding encode_items encode_item
length-encode_items [] = omega arith
length-encode_items ((tag, value) ∷ items) = omega (
  arith,
  length-append (encode_item (tag, value)) (encode_items items),
  length-encode_items items,
)
