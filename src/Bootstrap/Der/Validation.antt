-- ===== src/Bootstrap/Der/Validation.antt =====
-- src/lwm2m/bootstrap.rs: the signature, the name in a device certificate, and all checks in order.
use smart_garden_gateway_lwm.Prelude.{
  ℕ, Bool, true, false, ◌&&◌, Option, none, some, List, [], ◌∷◌, ◌++◌, Bytes, bytes, ◌==◌,
  if◌then◌else◌, drop, Outcome, ok, ◌>>=◌, keep_if, length,
}
use smart_garden_gateway_lwm.Text.{strip_prefix}
use smart_garden_gateway_lwm.Text.Utf8.{from_utf8, eq_ignore_ascii_case, lines}
use smart_garden_gateway_lwm.Bootstrap.Der.{DerItem, DerItemIter, der_item_iter, slice, next}
use smart_garden_gateway_lwm.Bootstrap.Der.Certificates.{
  Certificate, Crates, device_cert_decode, unknown_issuer, missing_extension, unexpected_item,
  ca_spki_encode, ca_public_key_parse, no_tbs, signature_not_octet_aligned, signature_parse,
  signature_verification_failed, no_sgtin_uri, sgtin_mismatch, Checked, passed, failed, and_then,
  same_text, find_extension, find_in_items, first_item, cert_check_key_usage, cert_check_eku,
}

-- The bytes up to where the iterator stands after one item.
abbrev pub up_to_item : Bytes → DerItemIter × Option DerItem → Outcome (Option Bytes)
unfolding slice
up_to_item content (items, none) = ok none
up_to_item content (items, some item) = slice content 0 items.pos >>= λ tbs. ok (some tbs)

unfoldable pub first_part : ℕ → Option Bytes → Outcome (Option Bytes)
unfolding next up_to_item
first_part usize none = ok none
first_part usize (some content) = next usize (der_item_iter content 0) >>= up_to_item content

-- `tbs_bytes_from_cert_der`
unfoldable pub tbs_bytes_from_cert_der : ℕ → Bytes → Outcome (Option Bytes)
unfolding first_item first_part
tbs_bytes_from_cert_der usize cert_der = first_item usize 48 cert_der >>= first_part usize

-- The key and the bytes that it signs at hand: the certificate's signature.
abbrev pub signature_verdict : Bool → Checked
signature_verdict true = passed
signature_verdict false = failed signature_verification_failed

abbrev pub check_parsed : Crates → Bytes → Bytes → Option Bytes → Checked
check_parsed crates key tbs none = failed signature_parse
check_parsed crates key tbs (some signature) = signature_verdict (crates.verify key tbs signature)

abbrev pub check_signature : Crates → Bytes → Bytes → Option Bytes → Checked
check_signature crates key tbs none = failed signature_not_octet_aligned
check_signature crates key tbs (some octets) =
    check_parsed crates key tbs (crates.signature_from_der octets)

abbrev pub check_tbs : Crates → Bytes → Certificate → Option Bytes → Checked
check_tbs crates key cert none = failed no_tbs
check_tbs crates key cert (some tbs) = check_signature crates key tbs cert.signature

unfoldable pub check_key : ℕ → Crates → Certificate → Bytes → Option Bytes → Checked
unfolding tbs_bytes_from_cert_der
check_key usize crates cert cert_der none = failed ca_public_key_parse
check_key usize crates cert cert_der (some key) =
    tbs_bytes_from_cert_der usize cert_der >>= check_tbs crates key cert

unfoldable pub check_spki : ℕ → Crates → Certificate → Bytes → Option Bytes → Checked
unfolding check_key
check_spki usize crates cert cert_der none = failed ca_spki_encode
check_spki usize crates cert cert_der (some spki) =
    check_key usize crates cert cert_der (crates.from_public_key_der spki)

-- `cert_verify_signature`
unfoldable pub cert_verify_signature : ℕ → Crates → Certificate → Certificate → Bytes → Checked
unfolding check_spki
cert_verify_signature usize crates cert ca cert_der =
    check_spki usize crates cert cert_der ca.subject_public_key_info

-- `val.starts_with(b"sgtin:")` on an item with the tag of a URI.
unfoldable pub is_sgtin_uri : DerItem → Bool
unfolding strip_prefix
is_sgtin_uri (tag, value) =
    (tag == 134) && elim (strip_prefix (bytes "sgtin:") value) [ some rest ↦ true | none ↦ false ]

-- `from_utf8(..).unwrap_or("")`
abbrev pub text_or_empty : Bytes → Bytes
text_or_empty text = elim (from_utf8 text) [ some t ↦ t | none ↦ [] ]

abbrev pub sgtin_verdict : Bytes → Bool → Checked
sgtin_verdict cert_sgtin true = passed
sgtin_verdict cert_sgtin false = failed (sgtin_mismatch cert_sgtin)

unfoldable pub compare_sgtin : Bytes → Option DerItem → Checked
unfolding eq_ignore_ascii_case from_utf8
compare_sgtin endpoint none = failed no_sgtin_uri
compare_sgtin endpoint (some (tag, value)) =
    let cert_sgtin = text_or_empty (drop (length (bytes "sgtin:")) value) in
    sgtin_verdict cert_sgtin (eq_ignore_ascii_case cert_sgtin endpoint)

unfoldable pub san_sequence : ℕ → Bytes → Option Bytes → Checked
unfolding find_in_items is_sgtin_uri compare_sgtin
san_sequence usize endpoint none = failed (unexpected_item (bytes "SAN"))
san_sequence usize endpoint (some sequence) =
    find_in_items usize is_sgtin_uri sequence >>= compare_sgtin endpoint

unfoldable pub san_extension : ℕ → Bytes → Option Bytes → Checked
unfolding first_item san_sequence
san_extension usize endpoint none = failed (missing_extension (bytes "SubjectAltName"))
san_extension usize endpoint (some value) =
    first_item usize 48 value >>= san_sequence usize endpoint

-- `cert_check_sgtin`
unfoldable pub cert_check_sgtin : ℕ → Certificate → Bytes → Checked
unfolding find_extension san_extension
cert_check_sgtin usize cert endpoint =
    san_extension usize endpoint (find_extension cert (85 ∷ 29 ∷ 17 ∷ []))

-- `pem_to_der`
abbrev is_body : Bytes → Bool
unfolding strip_prefix
is_body line = elim (strip_prefix (bytes "-----") line) [ some rest ↦ false | none ↦ true ]

abbrev join_lines : List Bytes → Bytes
join_lines [] = []
join_lines (line ∷ rest) = line ++ join_lines rest

unfoldable pub pem_to_der : Crates → Bytes → Option Bytes
unfolding lines is_body
pem_to_der crates pem = crates.base64_decode (join_lines (keep_if is_body (lines pem)))

-- The CA in one of the texts, if its subject is the issuer.
abbrev pub decode_ca : Crates → Option Bytes → Option Certificate
decode_ca crates none = none
decode_ca crates (some der) = crates.from_der der

unfoldable pub with_subject : Bytes → Option Certificate → Option Certificate
unfolding same_text
with_subject issuer none = none
with_subject issuer (some ca) = if same_text ca.subject issuer then some ca else none

abbrev pub or_else : Option Certificate → Option Certificate → Option Certificate
or_else (some ca) later = some ca
or_else none later = later

unfoldable pub find_issuer : Crates → List Bytes → Bytes → Option Certificate
unfolding pem_to_der with_subject
find_issuer crates [] issuer = none
find_issuer crates (pem ∷ pems) issuer =
    or_else (with_subject issuer (decode_ca crates (pem_to_der crates pem)))
      (find_issuer crates pems issuer)

-- The four checks behind the search for the issuer.
unfoldable pub check_all : ℕ → Crates → Bytes → Bytes → Certificate → Certificate → Checked
unfolding cert_check_key_usage cert_check_eku cert_verify_signature cert_check_sgtin
check_all usize crates cert_der endpoint cert ca = and_then (cert_check_key_usage usize cert) (
    and_then (cert_check_eku usize cert) (
      and_then (cert_verify_signature usize crates cert ca cert_der)
        (cert_check_sgtin usize cert endpoint)))

unfoldable pub with_issuer : ℕ → Crates → Bytes → Bytes → Certificate → Option Certificate → Checked
unfolding check_all
with_issuer usize crates cert_der endpoint cert none = failed unknown_issuer
with_issuer usize crates cert_der endpoint cert (some ca) =
    check_all usize crates cert_der endpoint cert ca

unfoldable pub with_certificate :
    ℕ → Crates → List Bytes → Bytes → Bytes → Option Certificate → Checked
unfolding find_issuer with_issuer
with_certificate usize crates cas cert_der endpoint none = failed device_cert_decode
with_certificate usize crates cas cert_der endpoint (some cert) =
    with_issuer usize crates cert_der endpoint cert (find_issuer crates cas cert.issuer)

-- `validate_device_certificate`, with the texts of the known CAs.
unfoldable pub validate_device_certificate : ℕ → Crates → List Bytes → Bytes → Bytes → Checked
unfolding with_certificate
validate_device_certificate usize crates cas cert_der endpoint =
    with_certificate usize crates cas cert_der endpoint (crates.from_der cert_der)
