-- ===== src/Server.antt =====
-- src/lwm2m/server.rs: tokens, queries, and the link format of a registration.
pub mod Replies
pub mod WritePhase
pub mod Packets
pub mod Acknowledged
pub mod Included
pub mod Kept
pub mod Safety
pub mod Queries
pub mod Links
pub mod Acks
pub mod Inclusion
pub mod Consent
pub mod Requests
pub mod Registering
pub mod Registration
use smart_garden_gateway_lwm.Prelude.{
  ℕ, zero, suc, ◌+◌, ◌-◌, ◌*◌, ◌^◌, Bool, true, false, not, ◌&&◌, ◌||◌, Option, none, some, List,
  [], ◌∷◌, ◌++◌, Bytes, bytes, bytes_key, nat_key, ltb, leb, ◌==◌, if◌then◌else◌, take, drop,
  length, replicate, Outcome, ok, panic, ◌>>=◌,
}
use smart_garden_gateway_lwm.Dict.{Dict, empty, insert}
use smart_garden_gateway_lwm.Text.{
  split, splitn, find, trim_start_matches, strip_prefix, parse_uint,
}
use smart_garden_gateway_lwm.Text.Trim.{is_continuation, trim}
use smart_garden_gateway_lwm.Model.{Token}

-- The first eight bytes, with zeros behind.
unfoldable pub token_array : Bytes → Token
token_array token = take 8 token ++ replicate (8 - length token) 0

-- `parts.next()?` and `parts.next().unwrap_or("")`
abbrev pub key_value : List Bytes → Option (Bytes × Bytes)
key_value [] = none
key_value (k ∷ []) = some (k, [])
key_value (k ∷ v ∷ rest) = some (k, v)

-- `collect` into a `HashMap`: a later value replaces an earlier one.
unfoldable pub collect_pairs : List Bytes → Dict Bytes Bytes → Dict Bytes Bytes
unfolding splitn
collect_pairs [] m = m
collect_pairs (kv ∷ kvs) m = elim (key_value (splitn 2 b'=' kv)) [
  | none ↦ collect_pairs kvs m
  | some (k, v) ↦ collect_pairs kvs (insert m k v)
]

unfoldable pub parse_query : Bytes → Dict Bytes Bytes
unfolding split collect_pairs
parse_query query = collect_pairs (split b'&' query) empty

-- `&text[1..end]`, where `end` is the place of an ASCII character.
unfoldable pub slice_from_one : ℕ → Bytes → Outcome Bytes
slice_from_one end text =
    if ltb end 1 || is_continuation (drop 1 text) then panic else ok (take (end - 1) (drop 1 text))

abbrev pub first_version : List Bytes → Bytes
unfolding strip_prefix
first_version [] = []
first_version (attr ∷ attrs) = elim (strip_prefix (bytes "ver=") attr) [
  | some ver ↦ ver
  | none ↦ first_version attrs
]

abbrev pub head_or_nil : List Bytes → Bytes
head_or_nil [] = []
head_or_nil (piece ∷ pieces) = piece

abbrev pub with_version : Bytes → Option ℕ → Dict ℕ Bytes → Dict ℕ Bytes
with_version ver none m = m
with_version [] (some id) m = m
with_version (b ∷ ver) (some id) m = insert m id (b ∷ ver)

-- One link: the object's path and the versions with its own, or nothing without a `>`.
unfoldable pub parse_trimmed :
    Bytes → List Bytes × Dict ℕ Bytes → Outcome (List Bytes × Dict ℕ Bytes)
unfolding slice_from_one find split trim_start_matches parse_uint
parse_trimmed link (objects, versions) = elim (find b'>' link) [
  | none ↦ ok (objects, versions)
  | some angle_end ↦ do
    inner ← slice_from_one angle_end link
    let path = trim_start_matches b'/' inner
    let ver = first_version (split b';' (drop (angle_end + 1) link))
    ok (
      objects ++ (path ∷ []),
      with_version ver (parse_uint (2 ^ 32) (head_or_nil (split b'/' path))) versions,
    )
]

unfoldable pub parse_link : Bytes → List Bytes × Dict ℕ Bytes → Outcome (List Bytes × Dict ℕ Bytes)
unfolding trim parse_trimmed
parse_link text out = parse_trimmed (trim text) out

unfoldable pub parse_links :
    List Bytes → List Bytes × Dict ℕ Bytes → Outcome (List Bytes × Dict ℕ Bytes)
unfolding parse_link
parse_links [] out = ok out
parse_links (link ∷ links) out = parse_link link out >>= λ out'. parse_links links out'

unfoldable pub parse_link_format : Bytes → Outcome (List Bytes × Dict ℕ Bytes)
unfolding split parse_links
parse_link_format body = parse_links (split b',' body) ([], empty)

-- `parts.next()?.parse().ok()?` for the first three of at most five parts.
abbrev pub path_numbers : List Bytes → Option (ℕ × ℕ × ℕ × Bool)
unfolding parse_uint
path_numbers (o ∷ i ∷ r ∷ rest) = elim (parse_uint (2 ^ 32) o) [
  | none ↦ none
  | some obj ↦ elim (parse_uint (2 ^ 32) i) [
    | none ↦ none
    | some inst ↦ elim (parse_uint (2 ^ 32) r) [
      | none ↦ none
      | some res ↦ some (
        obj,
        inst,
        res,
        elim (parse_uint (2 ^ 32) (head_or_nil rest)) [ none ↦ false | some n ↦ true ],
      )
    ]
  ]
]
path_numbers parts = none

unfoldable pub parse_lwm2m_path : Bytes → Option (ℕ × ℕ × ℕ × Bool)
unfolding splitn trim_start_matches
parse_lwm2m_path path = path_numbers (splitn 5 b'/' (trim_start_matches b'/' path))
