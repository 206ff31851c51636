-- ===== src/Bootstrap/Der/Usage.antt =====
-- src/lwm2m/bootstrap.rs: which extended key usages `cert_check_eku` accepts.
use mathlib.Core.List.{append-nil}
use smart_garden_gateway_lwm.Prelude.{
  ℕ, suc, ◌+◌, ◌^◌, ◌≤◌, ◌<◌, ◌&&◌, ◌≡◌, refl, sym, ap, ap₂, ◌∙◌, subst, ◌↔◌, true, false, none,
  some, List, [], ◌∷◌, ◌++◌, Bytes, ◌==◌, if◌then◌else◌, length, ok, ◌>>=◌, arith, Bool-cases, inl,
  inr, All, Elem, length-append, list_dec, ℕ_discrete,
}
use smart_garden_gateway_lwm.Bootstrap.Der.{DerItem}
use smart_garden_gateway_lwm.Bootstrap.Der.Reader.{read_item}
use smart_garden_gateway_lwm.Bootstrap.Der.Iteration.{IsByte}
use smart_garden_gateway_lwm.Bootstrap.Der.Search.{
  first_that, item_at_front, find_in_items-first_that, first_item_lem,
}
use smart_garden_gateway_lwm.Bootstrap.Der.Encoding.{
  encode_length, encode_item, encode_items, IsShort, read_item-encode_item, items_of-encode_items,
  length-encode_items,
}
use smart_garden_gateway_lwm.Bootstrap.Der.Certificates.{
  Certificate, passed, same_text, find_extension, first_item, with_tag, client_auth, is_client_auth,
  found_client_auth, eku_sequence, eku_extension, cert_check_eku,
}
use smart_garden_gateway_lwm.Bootstrap.Der.Acceptance.{same_text-eq}

same_text-same : (a : Bytes) → same_text a a ≡ true
unfolding same_text
same_text-same a =
    elim (list_dec ℕ_discrete a a) as (λ d. elim d [ yes p ↦ true | no n ↦ false ] ≡ true) [
      | yes p ↦ refl
      | no n ↦ absurd (n refl)
    ]

is_client_auth-eq : (item : DerItem) → is_client_auth item ≡ true → item ≡ (6, client_auth)
unfolding is_client_auth
is_client_auth-eq (tag, value) h = elim (Bool-cases (tag == 6)) [
  | inl six ↦
      let same : same_text value client_auth ≡ true =
        subst (λ b. (b && same_text value client_auth) ≡ true) six h in
      let t : tag ≡ 6 = ground arith in ap₂ (λ a b. (a, b)) t (same_text-eq value client_auth same)
  | inr other ↦
      let bad : false ≡ true = subst (λ b. (b && same_text value client_auth) ≡ true) other h in
      absurd (cc)
]

is_client_auth-same : is_client_auth (6, client_auth) ≡ true
unfolding is_client_auth
is_client_auth-same = same_text-same client_auth

-- The search finds a usage just when it is in the list.
first_client_auth-Elem :
    (items : List DerItem)
    → found_client_auth (first_that is_client_auth items) ≡ passed
    → Elem (6, client_auth) items
first_client_auth-Elem [] h = absurd (cc)
first_client_auth-Elem (item ∷ items) h = elim (Bool-cases (is_client_auth item)) [
  | inl yes_ ↦ inl (sym (is_client_auth-eq item yes_))
  | inr no_ ↦ inr (
      first_client_auth-Elem items (
        subst
          (λ b.
            found_client_auth (if b then some item else first_that is_client_auth items) ≡ passed)
          no_ h))
]

Elem-first_client_auth :
    (items : List DerItem)
    → Elem (6, client_auth) items
    → found_client_auth (first_that is_client_auth items) ≡ passed
Elem-first_client_auth [] h = absurd h
Elem-first_client_auth (item ∷ items) h = elim (Bool-cases (is_client_auth item)) [
  | inl yes_ ↦ rw yes_ refl
  | inr no_ ↦ rw no_ (elim h [
    | inl here ↦
        let bad : true ≡ false = sym is_client_auth-same ∙ ap is_client_auth here ∙ no_ in
        absurd (cc)
    | inr there ↦ Elem-first_client_auth items there
  ])
]

All-append_right : (xs ys : Bytes) → All IsByte (xs ++ ys) → All IsByte ys
All-append_right [] ys h = h
All-append_right (x ∷ xs) ys (_, h) = All-append_right xs ys h

-- The content of an encoded item is a part of it.
content_small : (tag : ℕ) (value : Bytes) → length value ≤ length (encode_item (tag, value))
unfolding encode_item
content_small tag value = omega (arith, length-append (encode_length (length value)) value)

content_bytes : (tag : ℕ) (value : Bytes) → All IsByte (encode_item (tag, value)) → All IsByte value
unfolding encode_item
content_bytes tag value (_, h) = All-append_right (encode_length (length value)) value h

-- The sequence of an extension is found as it was written.
first_item-encode_item :
    (usize tag : ℕ) (value : Bytes)
    → length (encode_item (tag, value)) + 2 ^ 32 ≤ usize
    → All IsByte (encode_item (tag, value))
    → length value < 2 ^ 32
    → first_item usize tag (encode_item (tag, value)) ≡ ok (some value)
first_item-encode_item usize tag value wide bs short =
    let same : (tag == tag) ≡ true = ground arith in
    first_item_lem usize tag (encode_item (tag, value)) wide bs
    ∙ ap (λ r. ok (with_tag tag (item_at_front r)))
        (ap read_item (sym (append-nil (encode_item (tag, value))))
          ∙ read_item-encode_item tag value [] short)
    ∙ ap (λ b. ok (if b then some value else none)) same

module _ (usize : ℕ) (cert : Certificate) (items : List DerItem)
    (is : find_extension cert (85 ∷ 29 ∷ 37 ∷ []) ≡ some (encode_item (48, encode_items items)))
    (wide : length (encode_item (48, encode_items items)) + 2 ^ 32 ≤ usize)
    (bs : All IsByte (encode_item (48, encode_items items)))
    (short : length (encode_items items) < 2 ^ 32) (each : All IsShort items) where
  cert_check_eku_lem :
      cert_check_eku usize cert ≡ found_client_auth (first_that is_client_auth items)
  unfolding cert_check_eku eku_extension eku_sequence
  cert_check_eku_lem =
      let sequence = encode_items items in
      let enough : length sequence + 2 ^ 32 ≤ usize = omega (arith, content_small 48 sequence) in
      ap (eku_extension usize) is
      ∙ ap (λ m. m >>= eku_sequence usize) (first_item-encode_item usize 48 sequence wide bs short)
      ∙ ap (λ m. m >>= found_client_auth)
          (find_in_items-first_that usize is_client_auth sequence enough
            (content_bytes 48 sequence bs))
      ∙ ap (λ l. found_client_auth (first_that is_client_auth l))
          (items_of-encode_items (suc (length sequence)) items
            (omega (arith, length-encode_items items)) each)

  -- On a machine whose `usize` is wide enough: where the extended key usage of a certificate is a
  -- sequence of items by the rules of DER, the check passes just when the identifier of client
  -- authentication is one of them.
  pub cert_check_eku-Elem : (cert_check_eku usize cert ≡ passed) ↔ Elem (6, client_auth) items
  cert_check_eku-Elem = (
    (λ h. first_client_auth-Elem items (sym cert_check_eku_lem ∙ h)),
    (λ h. cert_check_eku_lem ∙ Elem-first_client_auth items h),
  )
