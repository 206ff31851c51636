-- ===== src/Text/Utf8.antt =====
-- `std::str::from_utf8`, `eq_ignore_ascii_case` and `lines`, on bytes.
use smart_garden_gateway_lwm.Prelude.{
  ℕ, suc, zero, ◌+◌, ◌-◌, ◌*◌, ◌/◌, ◌%◌, ◌++◌, Bool, true, false, ◌&&◌, ◌||◌, Option, none, some,
  List, [], ◌∷◌, map, Bytes, leb, ◌==◌, if◌then◌else◌, list_dec, ℕ_discrete,
}
use smart_garden_gateway_lwm.Text.{split}

abbrev within : ℕ → ℕ → ℕ → Bool
within low high b = leb low b && leb b high

abbrev continues : ℕ → Bool
continues b = within 128 191 b

-- How many bytes the character at the front has, 0 where they are no character.
abbrev two_wide : ℕ → Bytes → Bool
two_wide a (b ∷ rest) = within 194 223 a && continues b
two_wide a rest = false

abbrev three_wide : ℕ → Bytes → Bool
three_wide a (b ∷ c ∷ rest) =
    continues c
    && (((a == 224) && within 160 191 b)
        || ((within 225 236 a && continues b)
            || (((a == 237) && within 128 159 b) || (within 238 239 a && continues b))))
three_wide a rest = false

abbrev four_wide : ℕ → Bytes → Bool
four_wide a (b ∷ c ∷ d ∷ rest) =
    (continues c && continues d)
    && (((a == 240) && within 144 191 b)
        || ((within 241 243 a && continues b) || ((a == 244) && within 128 143 b)))
four_wide a rest = false

abbrev char_width : ℕ → Bytes → ℕ
char_width a rest =
    if leb a 127
    then 1
    else if two_wide a rest
    then 2
    else if three_wide a rest
    then 3
    else if four_wide a rest
    then 4
    else 0

-- The bytes are UTF-8, when the first `skip` of them end a character.
unfoldable pub is_utf8_after : ℕ → Bytes → Bool
is_utf8_after skip [] = true
is_utf8_after (suc skip) (a ∷ rest) = is_utf8_after skip rest
is_utf8_after zero (a ∷ rest) =
    let width = char_width a rest in
    elim width [ zero ↦ false | suc more ↦ is_utf8_after more rest ]

unfoldable pub from_utf8 : Bytes → Option Bytes
unfolding is_utf8_after
from_utf8 text = if is_utf8_after 0 text then some text else none

-- `text.chars()`: the code points of a text, and the text of code points.
abbrev low_bits : ℕ → ℕ → ℕ
low_bits acc b = acc * 64 + (b - 128)

abbrev char_value : ℕ → Bytes → ℕ
char_value a (b ∷ c ∷ d ∷ rest) =
    if leb a 127
    then a
    else if leb a 223
    then low_bits (a - 192) b
    else if leb a 239
    then low_bits (low_bits (a - 224) b) c
    else low_bits (low_bits (low_bits (a - 240) b) c) d
char_value a (b ∷ c ∷ []) =
    if leb a 127
    then a
    else if leb a 223
    then low_bits (a - 192) b
    else low_bits (low_bits (a - 224) b) c
char_value a (b ∷ []) = if leb a 127 then a else low_bits (a - 192) b
char_value a [] = a

unfoldable pub chars_after : ℕ → Bytes → List ℕ
chars_after skip [] = []
chars_after (suc skip) (a ∷ rest) = chars_after skip rest
chars_after zero (a ∷ rest) = char_value a rest ∷ chars_after (char_width a rest - 1) rest

unfoldable pub chars : Bytes → List ℕ
unfolding chars_after
chars text = chars_after 0 text

abbrev pub char_bytes : ℕ → Bytes
char_bytes c =
    if leb c 127
    then c ∷ []
    else if leb c 2047
    then (192 + c / 64) ∷ (128 + c % 64) ∷ []
    else if leb c 65535
    then (224 + c / 4096) ∷ (128 + c / 64 % 64) ∷ (128 + c % 64) ∷ []
    else (240 + c / 262144) ∷ (128 + c / 4096 % 64) ∷ (128 + c / 64 % 64) ∷ (128 + c % 64) ∷ []

unfoldable pub string : List ℕ → Bytes
string [] = []
string (c ∷ cs) = char_bytes c ++ string cs

-- `to_ascii_lowercase` of a byte and of a text.
abbrev pub lower : ℕ → ℕ
lower b = if within 65 90 b then b + 32 else b

abbrev pub to_ascii_lowercase : Bytes → Bytes
to_ascii_lowercase [] = []
to_ascii_lowercase (b ∷ text) = lower b ∷ to_ascii_lowercase text

-- `a.eq_ignore_ascii_case(b)`
unfoldable pub eq_ignore_ascii_case : Bytes → Bytes → Bool
unfolding list_dec
eq_ignore_ascii_case a b =
    elim (list_dec ℕ_discrete (to_ascii_lowercase a) (to_ascii_lowercase b)) [
      | yes p ↦ true
      | no n ↦ false
    ]

-- `text.lines()`: the pieces at line feeds, without a carriage return before one, and without an
-- empty piece at the end.
abbrev drop_last_empty : List Bytes → List Bytes
drop_last_empty [] = []
drop_last_empty ([] ∷ []) = []
drop_last_empty (line ∷ lines) = line ∷ drop_last_empty lines

abbrev strip_cr : Bytes → Bytes
strip_cr [] = []
strip_cr (b ∷ []) = if b == 13 then [] else b ∷ []
strip_cr (b ∷ c ∷ text) = b ∷ strip_cr (c ∷ text)

unfoldable pub lines : Bytes → List Bytes
unfolding split
lines text = map strip_cr (drop_last_empty (split 10 text))
