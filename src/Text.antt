-- ===== src/Text.antt =====
-- What the program uses of Rust's `str` and of its number formatting, on bytes.
pub mod Trim
pub mod Decimal
pub mod Split
pub mod Utf8
use mathlib.Core.Option
use smart_garden_gateway_lwm.Prelude.{
  ℕ, zero, suc, ◌+◌, ◌-◌, ◌*◌, ◌/◌, ◌%◌, Bool, true, false, ◌&&◌, Option, none, some, List, [], ◌∷◌,
  ◌++◌, Bytes, ltb, leb, ◌==◌, if◌then◌else◌,
}

-- `text.split(c)`: the pieces between the separators, one more than there are separators.
abbrev pub push_piece : ℕ → List Bytes → List Bytes
push_piece b [] = (b ∷ []) ∷ []
push_piece b (piece ∷ pieces) = (b ∷ piece) ∷ pieces

unfoldable pub split : ℕ → Bytes → List Bytes
split c [] = [] ∷ []
split c (b ∷ text) =
    let pieces = split c text in if b == c then [] ∷ pieces else push_piece b pieces

-- `text.splitn(n, c)`: at most `n` pieces, the last with all that is left.
unfoldable pub splitn : ℕ → ℕ → Bytes → List Bytes
splitn zero c text = []
splitn (suc zero) c text = text ∷ []
splitn (suc (suc n)) c [] = [] ∷ []
splitn (suc (suc n)) c (b ∷ text) =
    let rest = splitn (suc n) c text in
    let same = splitn (suc (suc n)) c text in
    elim (b == c) [ true ↦ [] ∷ rest | false ↦ push_piece b same ]

-- `text.find(c)` and `text.rfind(c)`, for an ASCII character.
unfoldable pub find : ℕ → Bytes → Option ℕ
find c [] = none
find c (b ∷ text) = let later = Option.map suc (find c text) in if b == c then some 0 else later

-- The text after the last `c`, if there is one.
unfoldable pub after_last : ℕ → Bytes → Option Bytes
after_last c [] = none
after_last c (b ∷ text) = elim (after_last c text) [
  | some rest ↦ some rest
  | none ↦ if b == c then some text else none
]

-- `text.trim_start_matches(c)`
unfoldable pub trim_start_matches : ℕ → Bytes → Bytes
trim_start_matches c [] = []
trim_start_matches c (b ∷ text) =
    let rest = trim_start_matches c text in if b == c then rest else b ∷ text

-- `text.strip_prefix(prefix)`
unfoldable pub strip_prefix : Bytes → Bytes → Option Bytes
strip_prefix [] text = some text
strip_prefix (p ∷ ps) [] = none
strip_prefix (p ∷ ps) (b ∷ text) = let rest = strip_prefix ps text in if b == p then rest else none

-- `n.to_string()`, with fuel for the digits.
unfoldable pub digits_of : ℕ → ℕ → Bytes
digits_of zero n = []
digits_of (suc f) n =
    let front = digits_of f (n / 10) in
    if ltb n 10 then (48 + n) ∷ [] else front ++ ((48 + n % 10) ∷ [])

unfoldable pub decimal : ℕ → Bytes
unfolding digits_of
decimal n = digits_of (suc n) n

abbrev pub is_digit : ℕ → Bool
is_digit b = leb b'0' b && leb b b'9'

-- The digits of an unsigned integer type with `limit` values.
unfoldable pub parse_digits : ℕ → ℕ → Bytes → Option ℕ
parse_digits limit acc [] = some acc
parse_digits limit acc (b ∷ text) =
    let acc' = acc * 10 + (b - 48) in
    let rest = parse_digits limit acc' text in if is_digit b && ltb acc' limit then rest else none

-- `text.parse()` at such a type: a sign `+` may stand in front of the digits.
unfoldable pub parse_uint : ℕ → Bytes → Option ℕ
unfolding parse_digits
parse_uint limit [] = none
parse_uint limit (b ∷ []) = parse_digits limit 0 (b ∷ [])
parse_uint limit (b ∷ c ∷ text) =
    if b == b'+' then parse_digits limit 0 (c ∷ text) else parse_digits limit 0 (b ∷ c ∷ text)
