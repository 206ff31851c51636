-- ===== src/Bootstrap/Der/Overflow.antt =====
-- src/lwm2m/bootstrap.rs: what `DerItemIter::next` does where `usize` has 32 bits.
use smart_garden_gateway_lwm.Prelude.{
  ℕ, ◌+◌, ◌-◌, ◌%◌, ◌^◌, ◌≤◌, ◌<◌, ◌≡◌, refl, ap, ◌∙◌, false, none, some, [], ◌∷◌, Bytes, ltb, leb,
  if◌then◌else◌, length, ok, panic, ◌>>=◌, arith, All,
}
use smart_garden_gateway_lwm.Bootstrap.Der.{
  der_item_iter, slice, length_octets, with_length, item_length, item_value, next,
}
use smart_garden_gateway_lwm.Bootstrap.Der.Reader.{be_value}
use smart_garden_gateway_lwm.Bootstrap.Der.Iteration.{IsByte, be_value-bound, length_octets_lem}

-- A length of four octets, when they are there.
item_length_four :
    (content : Bytes) (value : ℕ)
    → ltb (length content) 6 ≡ false
    → length_octets 4294967296 content 4 2 0 ≡ ok (value, 6)
    → item_length 4294967296 content 2 132 ≡ ok (some value, 6)
unfolding item_length
item_length_four content value there octets =
    ap (λ t. if t then ok (none, 2) else length_octets 4294967296 content 4 2 0 >>= with_length)
      there
    ∙ ap (λ m. m >>= with_length) octets

-- With a `usize` of 32 bits, four octets of a length whose sum with the position wraps around stop
-- the iterator by a panic, whatever follows them.
pub next-panic :
    (tag a b c d : ℕ) (rest : Bytes)
    → All IsByte (a ∷ b ∷ c ∷ d ∷ rest)
    → 2 ^ 32 ≤ 6 + be_value 0 (a ∷ b ∷ c ∷ d ∷ [])
    → next (2 ^ 32) (der_item_iter (tag ∷ 132 ∷ a ∷ b ∷ c ∷ d ∷ rest) 0) ≡ panic
unfolding next item_value slice be_value
next-panic tag a b c d rest bs wraps =
    let content = tag ∷ 132 ∷ a ∷ b ∷ c ∷ d ∷ rest in
    let value = be_value 0 (a ∷ b ∷ c ∷ d ∷ []) in
    let octets : length_octets 4294967296 content 4 2 0 ≡ ok (value, 6) =
      length_octets_lem 4294967296 content 4 2 0 (a ∷ b ∷ c ∷ d ∷ rest) refl bs (omega arith)
        (omega arith) in
    let small : value < 4294967296 = be_value-bound 4 0 (a ∷ b ∷ c ∷ d ∷ rest) bs in
    let end : (6 + value) % 4294967296 ≡ 6 + value - 4294967296 = omega arith in
    let more : leb (length content) 1 ≡ false = ground arith in
    let there : ltb (length content) 6 ≡ false = ground arith in
    let inside : ltb (length content) (6 + value - 4294967296) ≡ false = ground arith in
    let behind : leb 6 (6 + value - 4294967296) ≡ false = ground arith in
    rw
      (
        next,
        more,
        item_length_four content value there octets,
        item_value,
        end,
        inside,
        slice,
        behind,
      )
      refl
