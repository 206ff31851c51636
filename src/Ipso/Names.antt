-- ===== src/Ipso/Names.antt =====
-- src/lwm2m/ipso.rs: names of objects and resources, and names of types.
use smart_garden_gateway_lwm.Prelude.{
  ℕ, Bool, true, false, not, ◌&&◌, ◌||◌, List, [], ◌∷◌, Bytes, bytes, ◌==◌, if◌then◌else◌,
}
use smart_garden_gateway_lwm.Text.Utf8.{chars, string}
use smart_garden_gateway_lwm.Ipso.{
  ResourceType, integer, float, string_, boolean, time, opaque, core_link, unsigned_integer,
  same_name,
}

-- The tables of Unicode that `char::is_uppercase`, `is_lowercase` and `to_lowercase` read.
pub record Letters : Type 0 where
  pub is_uppercase : ℕ → Bool
  pub is_lowercase : ℕ → Bool
  pub to_lowercase : ℕ → List ℕ

-- What is written so far, the last character first, and the two flags.
pub record Snake : Type 0 where
  pub out : List ℕ
  pub prev_lower : Bool
  pub prev_upper : Bool

abbrev pub push_all : List ℕ → List ℕ → List ℕ
push_all [] out = out
push_all (c ∷ cs) out = push_all cs (c ∷ out)

abbrev pub ends_word : List ℕ → Bool
ends_word [] = false
ends_word (c ∷ out) = not (c == b'_')

abbrev next_lower : Letters → List ℕ → Bool
next_lower letters [] = false
next_lower letters (c ∷ cs) = letters.is_lowercase c

-- One character, the ones behind it at hand.
unfoldable pub snake_step : Letters → ℕ → List ℕ → Snake → Snake
snake_step letters ch behind s =
    if (ch == b' ') || (ch == b'-')
    then record {
      out = if ends_word s.out then b'_' ∷ s.out else s.out;
      prev_lower = false;
      prev_upper = false;
    }
    else if letters.is_uppercase ch
    then record {
      out = push_all (letters.to_lowercase ch) (
          if s.prev_lower || (s.prev_upper && next_lower letters behind)
          then b'_' ∷ s.out
          else s.out);
      prev_lower = false;
      prev_upper = true;
    }
    else record { out = ch ∷ s.out; prev_lower = letters.is_lowercase ch; prev_upper = false }

unfoldable pub snake_all : Letters → List ℕ → Snake → Snake
unfolding snake_step
snake_all letters [] s = s
snake_all letters (ch ∷ cs) s = snake_all letters cs (snake_step letters ch cs s)

abbrev pub snake_start : Snake
snake_start = record { out = []; prev_lower = false; prev_upper = false }

-- `to_snake_case`
unfoldable pub to_snake_case : Letters → Bytes → Bytes
unfolding snake_all chars string
to_snake_case letters s = string (push_all (snake_all letters (chars s) snake_start).out [])

-- `parse_resource_type`
unfoldable pub parse_resource_type : Bytes → ResourceType
unfolding same_name
parse_resource_type s =
    if same_name s (bytes "Integer")
    then integer
    else if same_name s (bytes "Float")
    then float
    else if same_name s (bytes "String")
    then string_
    else if same_name s (bytes "Boolean")
    then boolean
    else if same_name s (bytes "Time")
    then time
    else if same_name s (bytes "Opaque")
    then opaque
    else if same_name s (bytes "Corelnk") || same_name s (bytes "CoreLink")
    then core_link
    else if same_name s (bytes "Unsigned Integer") || same_name s (bytes "UnsignedInteger")
    then unsigned_integer
    else integer
