-- ===== src/Bootstrap/Der/Iteration.antt =====
-- src/lwm2m/bootstrap.rs: what `DerItemIter::next` yields, on a machine whose `usize` is wide enough
-- for the sum of a position and a length.
use smart_garden_gateway_lwm.Prelude.{
  ap₂, ℕ, zero, suc, ◌+◌, ◌-◌, ◌*◌, ◌%◌, ◌^◌, ◌≤◌, ◌<◌, ◌≡◌, refl, sym, ap, ◌∙◌, ◌||◌, true, false,
  Option, none, some, [], ◌∷◌, Bytes, ltb, leb, ◌==◌, if◌then◌else◌, length, get_elem?, take, drop,
  ok, expect, Returns, ◌>>=◌, arith, Bool-cases, inl, inr, All, drop-drop, length-drop,
}
use smart_garden_gateway_lwm.Prelude.Bits.{and_127, or_256}
use Prim.Native.Nat.{bit_and, bit_or}
use native.Mathlib.Nat.{mod-eq_of_lt}
use smart_garden_gateway_lwm.Bootstrap.Der.{
  DerItemIter, DerItem, der_item_iter, slice, length_octets, item_length, item_value, next,
}
use smart_garden_gateway_lwm.Bootstrap.Der.Reader.{be_value, cut_value, long_value, read_item}

abbrev pub IsByte : ℕ → Type 0
IsByte b = b < 256

-- The iterator stands behind the item that the reader takes off, on the same bytes.
abbrev pub Yields : Bytes → Option (DerItem × Bytes) → DerItemIter × Option DerItem → Type 0
Yields content none (items, found) = (items.content ≡ content) × (found ≡ none)
Yields content (some (item, rest)) (items, found) =
    (items.content ≡ content)
    × ((found ≡ some item) × ((drop items.pos content ≡ rest) × (items.pos ≤ length content)))

-- Reading behind a position.
get_elem?-drop :
    (xs : Bytes) (p b : ℕ) (rest : Bytes) → drop p xs ≡ b ∷ rest → get_elem? xs p ≡ some b
get_elem?-drop [] zero b rest h = absurd (cc)
get_elem?-drop [] (suc p) b rest h = absurd (cc)
get_elem?-drop (x ∷ xs) zero b rest h = cc
get_elem?-drop (x ∷ xs) (suc p) b rest h = get_elem?-drop xs p b rest h

drop_next : (xs : Bytes) (p b : ℕ) (rest : Bytes) → drop p xs ≡ b ∷ rest → drop (p + 1) xs ≡ rest
drop_next xs p b rest h = sym (drop-drop 1 p (p + 1) xs refl) ∙ ap (drop 1) h

All-drop : (p : ℕ) (xs : Bytes) → All IsByte xs → All IsByte (drop p xs)
All-drop zero xs h = h
All-drop (suc p) [] h = h
All-drop (suc p) (x ∷ xs) (h, hs) = All-drop p xs hs

-- A number that takes in `n` more octets.
abbrev grow : ℕ → ℕ → ℕ
grow zero x = x
grow (suc n) x = grow n (x * 256)

grow-monotone : (n x y : ℕ) → x ≤ y → grow n x ≤ grow n y
grow-monotone zero x y h = h
grow-monotone (suc n) x y h = grow-monotone n (x * 256) (y * 256) (omega arith)

grow-increases : (n x : ℕ) → x ≤ grow n x
grow-increases zero x = omega arith
grow-increases (suc n) x = omega (arith, grow-increases n (x * 256))

grow_four : (n : ℕ) → n ≤ 4 → grow n 1 ≤ 4294967296
grow_four zero h = omega arith
grow_four (suc zero) h = omega arith
grow_four (suc (suc zero)) h = omega arith
grow_four (suc (suc (suc zero))) h = omega arith
grow_four (suc (suc (suc (suc zero)))) h = omega arith
grow_four (suc (suc (suc (suc (suc n))))) h = absurd (omega arith)

pub be_value-bound : (n l : ℕ) (s : Bytes) → All IsByte s → be_value l (take n s) < grow n (l + 1)
unfolding be_value
be_value-bound zero l s h = omega arith
be_value-bound (suc n) l [] h = omega (arith, grow-increases n ((l + 1) * 256))
be_value-bound (suc n) l (b ∷ s) (h, hs) = omega (
  arith,
  be_value-bound n (l * 256 + b) s hs,
  grow-monotone n (l * 256 + b + 1) ((l + 1) * 256) (omega arith),
)

-- The loop over the octets computes their number, and leaves the position behind them.
pub length_octets_lem :
    (usize : ℕ) (content : Bytes) (n p l : ℕ) (s : Bytes)
    → drop p content ≡ s
    → All IsByte s
    → n ≤ length s
    → grow n (l + 1) ≤ usize
    → length_octets usize content n p l ≡ ok (be_value l (take n s), p + n)
unfolding length_octets be_value
length_octets_lem usize content zero p l s e bs h g =
    ap (λ q. ok (l, q)) (let q : p ≡ p + 0 = omega arith in q)
length_octets_lem usize content (suc n) p l [] e bs h g = absurd (omega arith)
length_octets_lem usize content (suc n) p l (b ∷ s) e (b256, bs) h g =
    let fits : l * 256 < usize = omega (arith, grow-increases n ((l + 1) * 256)) in
    let low : l * 256 % usize ≡ l * 256 = mod-eq_of_lt fits in
    let step : bit_or (l * 256 % usize) b ≡ l * 256 + b =
      ap (λ m. bit_or m b) low ∙ or_256 l b b256 in
    let wide : grow n (l * 256 + b + 1) ≤ usize =
      omega (arith, grow-monotone n (l * 256 + b + 1) ((l + 1) * 256) (omega arith)) in
    ap (λ o. expect o >>= λ a. length_octets usize content n (p + 1) (bit_or (l * 256 % usize) a))
      (get_elem?-drop content p b s e)
    ∙ ap (length_octets usize content n (p + 1)) step
    ∙ length_octets_lem usize content n (p + 1) (l * 256 + b) s (drop_next content p b s e) bs
        (omega arith) wide
    ∙ ap (λ q. ok (be_value (l * 256 + b) (take n s), q))
        (let q : p + 1 + n ≡ p + suc n = omega arith in q)

-- The value is cut off where the reader cuts it off.
item_value_lem :
    (usize : ℕ) (content : Bytes) (tag p len : ℕ) (s : Bytes)
    → drop p content ≡ s
    → p ≤ length content
    → length content < usize
    → p + len < usize
    → Returns (item_value usize content tag (some len, p)) (Yields content (cut_value tag len s))
unfolding item_value slice
item_value_lem usize content tag p len s e h g k =
    let size : length s ≡ length content - p = ap length (sym e) ∙ length-drop p content in
    let end : (p + len) % usize ≡ p + len = mod-eq_of_lt k in
    elim (Bool-cases (ltb (length s) len)) [
      | inl short ↦
          let out : ltb (length content) (p + len) ≡ true = ground arith in
          rw (item_value, end, out, short) (refl, refl)
      | inr enough ↦
          let out : ltb (length content) (p + len) ≡ false = ground arith in
          let a : leb p (p + len) ≡ true = ground arith in
          let b : leb (p + len) (length content) ≡ true = ground arith in
          let cut : take (p + len - p) (drop p content) ≡ take len s = ap₂ take (omega arith) e in
          rw (item_value, end, out, slice, a, b, enough)
            (
              refl,
              (
                ap (λ v. some (tag, v)) cut,
                (sym (drop-drop len p (p + len) content refl) ∙ ap (drop len) e, ground arith),
              ),
            )
    ]

-- The length and the value, behind the first octet of the length.
item_rest_lem :
    (usize : ℕ) (content : Bytes) (tag p first : ℕ) (s : Bytes)
    → drop p content ≡ s
    → p ≤ length content
    → length content + 4294967296 ≤ usize
    → first < 256
    → All IsByte s
    → Returns (item_length usize content p first >>= item_value usize content tag) (
        Yields content
          (if ltb first 128 then cut_value tag first s else long_value tag (first - 128) s))
unfolding item_length item_value long_value
item_rest_lem usize content tag p first s e h g f256 bs =
    let size : length s ≡ length content - p = ap length (sym e) ∙ length-drop p content in
    elim (Bool-cases (ltb first 128)) [
      | inl short ↦
          rw (item_length, short)
            (item_value_lem usize content tag p first s e h (omega arith) (ground arith))
      | inr long ↦
          let n : bit_and first 127 ≡ first - 128 = and_127 first ∙ ground arith in
          let same : ltb (length content) (p + (first - 128)) ≡ ltb (length s) (first - 128) =
            ground arith in
          elim (Bool-cases
            ((first - 128 == 0) || (ltb 4 (first - 128) || ltb (length s) (first - 128)))) [
              | inl bad ↦ rw (item_length, item_value, long_value, long, n, same, bad) (refl, refl)
              | inr good ↦
                  let few : first - 128 ≤ 4 = ground arith in
                  let there : first - 128 ≤ length s = ground arith in
                  let value = be_value 0 (take (first - 128) s) in
                  let read : length_octets usize content (first - 128) p 0
                      ≡ ok (value, p + (first - 128)) =
                    length_octets_lem usize content (first - 128) p 0 s e bs there
                      (omega (arith, grow_four (first - 128) few)) in
                  let small : value < 4294967296 =
                    omega
                      (arith, be_value-bound (first - 128) 0 s bs, grow_four (first - 128) few) in
                  rw (item_length, long_value, long, n, same, good, read)
                    (item_value_lem usize content tag (p + (first - 128)) value
                      (drop (first - 128) s)
                      (sym (drop-drop (first - 128) p (p + (first - 128)) content refl)
                        ∙ ap (drop (first - 128)) e)
                      (omega arith) (omega arith) (omega arith))
            ]
    ]

read_item_from :
    (usize : ℕ) (content : Bytes) (p : ℕ) (s : Bytes)
    → drop p content ≡ s
    → p ≤ length content
    → length content + 4294967296 ≤ usize
    → All IsByte s
    → Returns (next usize (der_item_iter content p)) (Yields content (read_item s))
unfolding next read_item
read_item_from usize content p [] e h g bs =
    let size : 0 ≡ length content - p = ap length (sym e) ∙ length-drop p content in
    let out : leb (length content) (p + 1) ≡ true = ground arith in rw (next, out) (refl, refl)
read_item_from usize content p (tag ∷ []) e h g bs =
    let size : 1 ≡ length content - p = ap length (sym e) ∙ length-drop p content in
    let out : leb (length content) (p + 1) ≡ true = ground arith in rw (next, out) (refl, refl)
read_item_from usize content p (tag ∷ first ∷ s) e h g (t, (f, bs)) =
    let size : suc (suc (length s)) ≡ length content - p =
      ap length (sym e) ∙ length-drop p content in
    let more : leb (length content) (p + 1) ≡ false = ground arith in
    let tail = drop_next content p tag (first ∷ s) e in
    rw
      (
        next,
        more,
        get_elem?-drop content p tag (first ∷ s) e,
        get_elem?-drop content (p + 1) first s tail,
      )
      (item_rest_lem usize content tag (p + 1 + 1) first s (drop_next content (p + 1) first s tail)
        (omega arith) g f bs)

-- On a machine whose `usize` holds the sum of the input's length and any 32-bit number, the iterator
-- never panics, at no position of any bytes. It yields the item that the reader takes off the bytes
-- that are left, and stands behind it, within the input; it yields none where the reader finds none.
pub next-read_item :
    (usize : ℕ) (content : Bytes) (p : ℕ)
    → p ≤ length content
    → length content + 2 ^ 32 ≤ usize
    → All IsByte content
    → Returns (next usize (der_item_iter content p)) (Yields content (read_item (drop p content)))
next-read_item usize content p h g bs =
    read_item_from usize content p (drop p content) refl h (omega arith) (All-drop p content bs)
