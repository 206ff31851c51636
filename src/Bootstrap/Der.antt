-- ===== src/Bootstrap/Der.antt =====
-- src/lwm2m/bootstrap.rs: the iterator over the DER items of a device certificate.
pub mod Reader
pub mod Iteration
pub mod Overflow
pub mod Certificates
pub mod Validation
pub mod Acceptance
pub mod Guarantees
pub mod Encoding
pub mod Search
pub mod Parts
pub mod Genuine
pub mod Usage
use Prim.Native.Nat.{bit_and, bit_or}
use smart_garden_gateway_lwm.Prelude.{
  ℕ, zero, suc, ◌+◌, ◌-◌, ◌*◌, ◌%◌, ◌||◌, ◌&&◌, Option, none, some, Bytes, ltb, leb, ◌==◌,
  if◌then◌else◌, length, get_elem?, take, drop, Outcome, ok, panic, expect, ◌>>=◌,
}

-- `DerItemIter`: all the bytes, and where the next item starts.
pub record DerItemIter : Type 0 where
  pub content : Bytes
  pub pos : ℕ

abbrev pub der_item_iter : Bytes → ℕ → DerItemIter
der_item_iter content pos = record { content = content; pos = pos }

-- A tag with the bytes of its value.
abbrev pub DerItem : Type 0
DerItem = ℕ × Bytes

-- `&text[from..to]`
unfoldable pub slice : Bytes → ℕ → ℕ → Outcome Bytes
slice text from to =
    if leb from to && leb to (length text) then ok (take (to - from) (drop from text)) else panic

-- The loop over the octets of a long length, in a `usize` of `usize` values.
unfoldable pub length_octets : ℕ → Bytes → ℕ → ℕ → ℕ → Outcome (ℕ × ℕ)
length_octets usize content zero pos l = ok (l, pos)
length_octets usize content (suc n) pos l = expect (get_elem? content pos) >>= λ b.
    length_octets usize content n (pos + 1) (bit_or (l * 256 % usize) b)

abbrev pub with_length : ℕ × ℕ → Outcome (Option ℕ × ℕ)
with_length (l, pos) = ok (some l, pos)

-- The length of an item whose first length octet is `first`, and the position behind it.
unfoldable pub item_length : ℕ → Bytes → ℕ → ℕ → Outcome (Option ℕ × ℕ)
unfolding length_octets
item_length usize content pos first =
    let n = bit_and first 127 in
    if ltb first 128
    then ok (some first, pos)
    else if (n == 0) || (ltb 4 n || ltb (length content) (pos + n))
    then ok (none, pos)
    else length_octets usize content n pos 0 >>= with_length

-- The value, if it is all there. The sum of the position and the length wraps around.
unfoldable pub item_value : ℕ → Bytes → ℕ → Option ℕ × ℕ → Outcome (DerItemIter × Option DerItem)
unfolding slice
item_value usize content tag (none, pos) = ok (der_item_iter content pos, none)
item_value usize content tag (some len, pos) =
    let end = (pos + len) % usize in
    if ltb (length content) end
    then ok (der_item_iter content pos, none)
    else slice content pos end >>= λ value. ok (der_item_iter content end, some (tag, value))

-- `DerItemIter::next`. The other sums stay below the length of a slice, and do not wrap.
unfoldable pub next : ℕ → DerItemIter → Outcome (DerItemIter × Option DerItem)
unfolding item_length item_value
next usize items =
    let content = items.content in
    let pos = items.pos in
    if leb (length content) (pos + 1)
    then ok (items, none)
    else expect (get_elem? content pos) >>= λ tag. expect (get_elem? content (pos + 1)) >>= λ first.
        item_length usize content (pos + 1 + 1) first >>= item_value usize content tag
