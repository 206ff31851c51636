-- ===== src/Bootstrap/Der/Genuine.antt =====
-- src/lwm2m/bootstrap.rs: what the acceptance of a device certificate guarantees of its bytes.
use smart_garden_gateway_lwm.Prelude.{
  none, true, if◌then◌else◌, Bool-cases, Option-cases, inl, inr, ◌==◌, Bool, ℕ, suc, ◌+◌, ◌^◌, ◌≤◌,
  ◌≡◌, sym, ap, ◌∙◌, subst, Option, some, List, [], ◌∷◌, ◌++◌, Bytes, bytes, length, drop, ok, All,
  arith,
}
use smart_garden_gateway_lwm.Text.{strip_prefix}
use smart_garden_gateway_lwm.Text.Utf8.{to_ascii_lowercase}
use smart_garden_gateway_lwm.Bootstrap.Der.{DerItem}
use smart_garden_gateway_lwm.Bootstrap.Der.Iteration.{IsByte}
use smart_garden_gateway_lwm.Bootstrap.Der.Certificates.{
  Certificate, Crates, passed, find_extension, find_in_items,
}
use smart_garden_gateway_lwm.Bootstrap.Der.Validation.{
  is_sgtin_uri, text_or_empty, validate_device_certificate,
}
use smart_garden_gateway_lwm.Bootstrap.Der.Acceptance.{IssuedBy, NamedBy, sgtin_of}
use smart_garden_gateway_lwm.Bootstrap.Der.Search.{first_that, items_of, find_in_items-first_that}
use smart_garden_gateway_lwm.Bootstrap.Der.Parts.{
  HasValue, IsWithin, IsSigned, tbs_bytes-IsSigned, first_item-HasValue, read_item-IsWithin,
}
use smart_garden_gateway_lwm.Bootstrap.Der.Guarantees.{
  VerifiedBy, validate_device_certificate-IsChecked,
}

strip_prefix-append :
    (front text : Bytes)
    → (rest : Bytes) → strip_prefix front text ≡ some rest
    → text ≡ front ++ rest
unfolding strip_prefix
strip_prefix-append [] text rest h = cc
strip_prefix-append (p ∷ ps) [] rest h = absurd (cc)
strip_prefix-append (p ∷ ps) (b ∷ text) rest h = elim (Bool-cases (b == p)) [
  | inl same ↦
      let e : b ≡ p = ground arith in
      let later =
        strip_prefix-append ps text rest
          (subst (λ c. (if c then strip_prefix ps text else none) ≡ some rest) same h) in
      ap (λ c. c ∷ text) e ∙ ap (λ t. p ∷ t) later
  | inr other ↦
      let bad : none ≡ some rest =
        subst (λ c. (if c then strip_prefix ps text else none) ≡ some rest) other h in
      absurd (cc)
]

-- An item that is taken for an `sgtin:` URI has the tag of a URI and begins so.
is_sgtin_uri-prefix :
    (tag : ℕ) (value : Bytes)
    → is_sgtin_uri (tag, value) ≡ true
    → (tag ≡ 134) × ((name : Bytes) × (value ≡ bytes "sgtin:" ++ name))
unfolding is_sgtin_uri
is_sgtin_uri-prefix tag value h = elim (Option-cases (strip_prefix (bytes "sgtin:") value)) [
  | inl absent ↦ absurd (ground (arith, absent))
  | inr (name, found) ↦
      (ground arith, (name, strip_prefix-append (bytes "sgtin:") value name found))
]

first_that-passes :
    (test : DerItem → Bool) (items : List DerItem) (x : DerItem)
    → first_that test items ≡ some x
    → test x ≡ true
first_that-passes test [] x h = absurd (cc)
first_that-passes test (item ∷ items) x h = elim (Bool-cases (test item)) [
  | inl passes ↦
      let is : some item ≡ some x =
        subst (λ b. (if b then some item else first_that test items) ≡ some x) passes h in
      let same : item ≡ x = cc in subst (λ i. test i ≡ true) same passes
  | inr fails ↦
      first_that-passes test items x
        (subst (λ b. (if b then some item else first_that test items) ≡ some x) fails h)
]

-- The alternative names of a certificate.
abbrev pub alternative_names : Certificate → Option Bytes
alternative_names cert = find_extension cert (85 ∷ 29 ∷ 17 ∷ [])

-- The extension is a sequence, and the first URI in it that begins with `sgtin:` goes on with the
-- endpoint, up to the case of letters.
abbrev pub NamesFirst : Bytes → Option Bytes → Type 0
NamesFirst endpoint extension =
    (value : Bytes) × ((extension ≡ some value)
      × ((sequence : Bytes) × (HasValue 48 value sequence
            × ((name : Bytes) × ((first_that is_sgtin_uri
                      (items_of (suc (length sequence)) sequence)
                    ≡ some (134, bytes "sgtin:" ++ name))
                  × (to_ascii_lowercase (text_or_empty name) ≡ to_ascii_lowercase endpoint))))))

-- The bytes of a value that the crate hands out, and few enough of them.
abbrev pub AreBytes : ℕ → Bytes → Type 0
AreBytes usize text = All IsByte text × (length text + 2 ^ 32 ≤ usize)

module _ (usize : ℕ) (endpoint : Bytes) where
  named_item :
      (sequence : Bytes) (item : DerItem)
      → AreBytes usize sequence
      → find_in_items usize is_sgtin_uri sequence ≡ ok (some item)
      → to_ascii_lowercase (sgtin_of item) ≡ to_ascii_lowercase endpoint
      → (name : Bytes) × ((first_that is_sgtin_uri (items_of (suc (length sequence)) sequence)
            ≡ some (134, bytes "sgtin:" ++ name))
          × (to_ascii_lowercase (text_or_empty name) ≡ to_ascii_lowercase endpoint))
  named_item sequence (tag, text) (bs, wide) found same =
      let items = items_of (suc (length sequence)) sequence in
      let both : ok (first_that is_sgtin_uri items) ≡ ok (some (tag, text)) =
        sym (find_in_items-first_that usize is_sgtin_uri sequence wide bs) ∙ found in
      let first : first_that is_sgtin_uri items ≡ some (tag, text) = cc in
      let (uri, (name, begins)) =
        is_sgtin_uri-prefix tag text (first_that-passes is_sgtin_uri items (tag, text) first) in
      (
        name,
        (
          first ∙ ap (λ t. some (t, text)) uri ∙ ap (λ t. some (134, t)) begins,
          sym (ap (λ t. to_ascii_lowercase (text_or_empty (drop 6 t))) begins) ∙ same,
        ),
      )

  NamedBy-NamesFirst :
      (extension : Option Bytes)
      → ((value : Bytes) → extension ≡ some value → AreBytes usize value)
      → NamedBy usize endpoint extension
      → NamesFirst endpoint extension
  NamedBy-NamesFirst extension small
        (value, (is, (first, (cut, (sequence, (there, (item, (found, same)))))))) =
      let (bs, wide) = small value is in
      let (rest, whole) = first_item-HasValue usize value wide bs 48 sequence (cut ∙ ap ok there) in
      let (bs', short) = subst (IsWithin value) whole (read_item-IsWithin value bs) in
      (
        value,
        (
          is,
          (
            sequence,
            ((rest, whole), named_item sequence item (bs', omega (arith, short, wide)) found same),
          ),
        ),
      )

-- The certificate's issuer is a known CA, whose key verifies the signature over the signed bytes, and
-- it names the endpoint.
abbrev pub IsGenuine : Crates → List Bytes → Bytes → Bytes → Certificate → Type 0
IsGenuine crates cas cert_der endpoint cert =
    (ca : Certificate) × (IssuedBy crates cas cert ca
      × ((spki : Bytes) × ((ca.subject_public_key_info ≡ some spki)
            × ((key : Bytes) × ((crates.from_public_key_der spki ≡ some key)
                  × ((tbs : Bytes) × (IsSigned cert_der tbs
                        × (VerifiedBy crates key tbs cert.signature
                            × NamesFirst endpoint (alternative_names cert)))))))))

-- On a machine whose `usize` is wide enough, a device certificate that is accepted for an endpoint
-- decodes to a certificate whose issuer is the subject of one of the known CAs. That CA's key verifies
-- the certificate's signature over the bytes of the first item in the sequence that the certificate is,
-- tag and length included, as a reader of DER cuts them. The first URI among its alternative names that
-- begins with `sgtin:` goes on with the endpoint, up to the case of letters. The extension that the
-- crate decodes is a list of bytes and not too long for `usize`.
pub validate_device_certificate-IsGenuine :
    (usize : ℕ) (crates : Crates) (cas : List Bytes) (cert_der endpoint : Bytes)
    → AreBytes usize cert_der
    → ((cert : Certificate) (value : Bytes)
        → crates.from_der cert_der ≡ some cert
        → alternative_names cert ≡ some value
        → AreBytes usize value)
    → validate_device_certificate usize crates cas cert_der endpoint ≡ passed
    → (cert : Certificate) × ((crates.from_der cert_der ≡ some cert)
        × IsGenuine crates cas cert_der endpoint cert)
validate_device_certificate-IsGenuine usize crates cas cert_der endpoint (bs, wide) small h =
    let (
      cert,
      (is, (ca, (issued, (spki, (has, (key, (parsed, ((tbs, (cut, verified)), named)))))))),
    ) =
      validate_device_certificate-IsChecked usize crates cas cert_der endpoint h in
    let signed = tbs_bytes-IsSigned usize cert_der wide bs tbs cut in
    let names =
      NamedBy-NamesFirst usize endpoint (alternative_names cert) (λ value e. small cert value is e)
        named in
    (cert, (is, (ca, (issued, (spki, (has, (key, (parsed, (tbs, (signed, (verified, names)))))))))))
