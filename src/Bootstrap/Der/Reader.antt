-- ===== src/Bootstrap/Der/Reader.antt =====
-- src/lwm2m/bootstrap.rs: an item of DER as ITU-T X.690 reads it, from the bytes that are left, and
-- what the iterator has to do with it.
use smart_garden_gateway_lwm.Prelude.{
  ℕ, ◌+◌, ◌-◌, ◌*◌, ◌||◌, Option, none, some, [], ◌∷◌, Bytes, ltb, ◌==◌, if◌then◌else◌, length,
  take, drop,
}
use smart_garden_gateway_lwm.Bootstrap.Der.{DerItem}

-- The number that octets spell, the most significant first.
unfoldable pub be_value : ℕ → Bytes → ℕ
be_value acc [] = acc
be_value acc (b ∷ octets) = be_value (acc * 256 + b) octets

-- The first `len` bytes as a value.
abbrev pub cut_value : ℕ → ℕ → Bytes → Option (DerItem × Bytes)
cut_value tag len rest =
    if ltb (length rest) len then none else some ((tag, take len rest), drop len rest)

unfoldable pub long_value : ℕ → ℕ → Bytes → Option (DerItem × Bytes)
unfolding be_value
long_value tag n rest =
    if (n == 0) || (ltb 4 n || ltb (length rest) n)
    then none
    else cut_value tag (be_value 0 (take n rest)) (drop n rest)

-- The first item and the bytes behind it; lengths have up to four octets.
unfoldable pub read_item : Bytes → Option (DerItem × Bytes)
unfolding be_value long_value
read_item [] = none
read_item (tag ∷ []) = none
read_item (tag ∷ first ∷ rest) =
    if ltb first 128 then cut_value tag first rest else long_value tag (first - 128) rest
