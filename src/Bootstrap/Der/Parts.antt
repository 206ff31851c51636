-- ===== src/Bootstrap/Der/Parts.antt =====
-- src/lwm2m/bootstrap.rs: what the checks cut out of a device certificate, as the reader of DER cuts it.
use smart_garden_gateway_lwm.Prelude.{
  ℕ, zero, suc, ◌+◌, ◌-◌, ◌^◌, ◌≤◌, ◌||◌, ◌&&◌, ◌≡◌, refl, sym, ap, ◌∙◌, subst, true, Option, none,
  some, [], ◌∷◌, ◌++◌, Bytes, ltb, leb, ◌==◌, if◌then◌else◌, length, take, drop, Outcome, ok, ◌>>=◌,
  arith, Bool-cases, Option-cases, inl, inr, All, length-drop, length-take, take-append-drop,
}
use smart_garden_gateway_lwm.Bootstrap.Der.{DerItem, DerItemIter, der_item_iter, next, slice}
use smart_garden_gateway_lwm.Bootstrap.Der.Reader.{be_value, cut_value, long_value, read_item}
use smart_garden_gateway_lwm.Bootstrap.Der.Iteration.{IsByte, Yields, next-read_item}
use smart_garden_gateway_lwm.Bootstrap.Der.Certificates.{with_tag, first_item}
use smart_garden_gateway_lwm.Bootstrap.Der.Validation.{
  up_to_item, first_part, tbs_bytes_from_cert_der,
}
use smart_garden_gateway_lwm.Bootstrap.Der.Search.{item_at_front, first_item_lem, Returns-ok}

All-take : (n : ℕ) (xs : Bytes) → All IsByte xs → All IsByte (take n xs)
All-take zero xs h = tt
All-take (suc n) [] h = h
All-take (suc n) (x ∷ xs) (h, hs) = (h, All-take n xs hs)

All-drop : (n : ℕ) (xs : Bytes) → All IsByte xs → All IsByte (drop n xs)
All-drop zero xs h = h
All-drop (suc n) [] h = h
All-drop (suc n) (x ∷ xs) (h, hs) = All-drop n xs hs

-- The value of an item is made of the bytes that it was read from.
abbrev pub IsWithin : Bytes → Option (DerItem × Bytes) → Type 0
IsWithin s none = Unit
IsWithin s (some ((tag, value), rest)) = All IsByte value × (length value ≤ length s)

cut_value-IsWithin : (tag len : ℕ) (s : Bytes) → All IsByte s → IsWithin s (cut_value tag len s)
cut_value-IsWithin tag len s bs = elim (Bool-cases (ltb (length s) len)) [
  | inl short ↦ rw short tt
  | inr enough ↦ rw enough (All-take len s bs, omega (arith, length-take len s))
]

wider :
    (s t : Bytes) (found : Option (DerItem × Bytes))
    → length s ≤ length t
    → IsWithin s found
    → IsWithin t found
wider s t none h k = tt
wider s t (some ((tag, value), rest)) h (bs, short) = (bs, omega arith)

long_value-IsWithin : (tag n : ℕ) (s : Bytes) → All IsByte s → IsWithin s (long_value tag n s)
unfolding long_value
long_value-IsWithin tag n s bs = elim (Bool-cases ((n == 0) || (ltb 4 n || ltb (length s) n))) [
  | inl bad ↦ rw (long_value, bad) tt
  | inr good ↦
      rw (long_value, good)
        (wider (drop n s) s (cut_value tag (be_value 0 (take n s)) (drop n s))
          (omega (arith, length-drop n s))
          (cut_value-IsWithin tag (be_value 0 (take n s)) (drop n s) (All-drop n s bs)))
]

pub read_item-IsWithin : (s : Bytes) → All IsByte s → IsWithin s (read_item s)
unfolding read_item
read_item-IsWithin [] bs = tt
read_item-IsWithin (t ∷ []) bs = tt
read_item-IsWithin (t ∷ f ∷ s) (_, (_, bs)) = elim (Bool-cases (ltb f 128)) [
  | inl short ↦
      rw short (wider s (t ∷ f ∷ s) (cut_value t f s) (omega arith) (cut_value-IsWithin t f s bs))
  | inr long ↦ rw long (
      wider s (t ∷ f ∷ s) (long_value t (f - 128) s) (omega arith)
        (long_value-IsWithin t (f - 128) s bs))
]

-- The value of the item at the front of the bytes, if it has the tag.
abbrev pub HasValue : ℕ → Bytes → Bytes → Type 0
HasValue tag s value = (rest : Bytes) × (read_item s ≡ some ((tag, value), rest))

with_tag-some :
    (tag : ℕ) (s value : Bytes)
    → with_tag tag (item_at_front (read_item s)) ≡ some value
    → HasValue tag s value
with_tag-some tag s value h = elim (Option-cases (read_item s)) [
  | inl absent ↦
      let bad : none ≡ some value = sym (ap (λ r. with_tag tag (item_at_front r)) absent) ∙ h in
      absurd (cc)
  | inr (((t, v), rest), there) ↦
      let k : (if t == tag then some v else none) ≡ some value =
        sym (ap (λ r. with_tag tag (item_at_front r)) there) ∙ h in
      elim (Bool-cases (t == tag)) [
        | inl same ↦
            let is : some v ≡ some value =
              subst (λ b. (if b then some v else none) ≡ some value) same k in
            let tags : t ≡ tag = ground arith in
            let values : v ≡ value = cc in
            (
              rest,
              there ∙ ap (λ x. some ((x, v), rest)) tags ∙ ap (λ x. some ((tag, x), rest)) values,
            )
        | inr other ↦
            let bad : none ≡ some value =
              subst (λ b. (if b then some v else none) ≡ some value) other k in
            absurd (cc)
      ]
]

-- All the bytes of the first item: they and what follows the item are all there is.
abbrev pub IsFirstPart : Bytes → Bytes → Type 0
IsFirstPart content part =
    (item : DerItem) × ((rest : Bytes) × ((read_item content ≡ some (item, rest))
        × (part ++ rest ≡ content)))

module _ (usize : ℕ) (s : Bytes) (wide : length s + 2 ^ 32 ≤ usize) (bs : All IsByte s) where
  pub first_item-HasValue :
      (tag : ℕ) (value : Bytes) → first_item usize tag s ≡ ok (some value) → HasValue tag s value
  first_item-HasValue tag value h =
      let same : ok (with_tag tag (item_at_front (read_item s))) ≡ ok (some value) =
        sym (first_item_lem usize tag s wide bs) ∙ h in
      let is : with_tag tag (item_at_front (read_item s)) ≡ some value = cc in
      with_tag-some tag s value is

  up_to_item-IsFirstPart :
      (part : Bytes) (r : Option (DerItem × Bytes)) (step : DerItemIter × Option DerItem)
      → read_item s ≡ r
      → Yields s r step
      → up_to_item s step ≡ ok (some part)
      → IsFirstPart s part
  unfolding slice
  up_to_item-IsFirstPart part none (items, found) e (_, is) h =
      let bad : ◌≡◌ {A = Outcome (Option Bytes)} (ok none) (ok (some part)) =
        sym (ap (λ f. up_to_item s (items, f)) is) ∙ h in
      absurd (cc)
  up_to_item-IsFirstPart part (some (item, rest)) (items, found) e (_, (is, (behind, inside))) h =
      let fits : (leb 0 items.pos && leb items.pos (length s)) ≡ true = ground arith in
      let cut : slice s 0 items.pos ≡ ok (take items.pos s) =
        rw (slice, fits)
          (ap (λ n. ok (take n s)) (let e : items.pos - 0 ≡ items.pos = omega arith in e)) in
      let same : ◌≡◌ {A = Outcome (Option Bytes)} (ok (some (take items.pos s))) (ok (some part)) =
        sym (ap (λ m. m >>= λ tbs. ok (some tbs)) cut)
        ∙ sym (ap (λ f. up_to_item s (items, f)) is)
        ∙ h in
      let is_part : part ≡ take items.pos s = cc in
      (
        item,
        (
          rest,
          (
            e,
            ap (λ x. x ++ rest) is_part
                ∙ ap (λ r. take items.pos s ++ r) (sym behind)
                ∙ take-append-drop items.pos s,
          ),
        ),
      )

  first_part-IsFirstPart :
      (part : Bytes) → first_part usize (some s) ≡ ok (some part) → IsFirstPart s part
  unfolding first_part
  first_part-IsFirstPart part h =
      let (step, (is, yields)) =
        Returns-ok (next usize (der_item_iter s 0)) (Yields s (read_item s))
          (next-read_item usize s 0 (omega arith) wide bs) in
      up_to_item-IsFirstPart part (read_item s) step refl yields
        (sym (ap (λ m. m >>= up_to_item s) is) ∙ h)

-- The bytes that are signed: the first part of the value of a sequence, as it stands there.
abbrev pub IsSigned : Bytes → Bytes → Type 0
IsSigned cert_der tbs = (content : Bytes) × (HasValue 48 cert_der content × IsFirstPart content tbs)

module _ (usize : ℕ) (cert_der : Bytes) (wide : length cert_der + 2 ^ 32 ≤ usize)
    (bs : All IsByte cert_der) where
  first_part-IsSigned :
      (tbs : Bytes) (found : Option Bytes)
      → first_item usize 48 cert_der ≡ ok found
      → first_part usize found ≡ ok (some tbs)
      → IsSigned cert_der tbs
  unfolding first_part
  first_part-IsSigned tbs none e h =
      let bad : ◌≡◌ {A = Outcome (Option Bytes)} (ok none) (ok (some tbs)) = h in absurd (cc)
  first_part-IsSigned tbs (some content) e h =
      let (rest, there) = first_item-HasValue usize cert_der wide bs 48 content e in
      let (bs', short) = subst (IsWithin cert_der) there (read_item-IsWithin cert_der bs) in
      (
        content,
        (
          (rest, there),
          first_part-IsFirstPart usize content (omega (arith, short, wide)) bs' tbs h,
        ),
      )

  -- The bytes that the signature is checked over.
  pub tbs_bytes-IsSigned :
      (tbs : Bytes) → tbs_bytes_from_cert_der usize cert_der ≡ ok (some tbs) → IsSigned cert_der tbs
  unfolding tbs_bytes_from_cert_der
  tbs_bytes-IsSigned tbs h =
      let found = with_tag 48 (item_at_front (read_item cert_der)) in
      let is = first_item_lem usize 48 cert_der wide bs in
      first_part-IsSigned tbs found is (sym (ap (λ m. m >>= first_part usize) is) ∙ h)
