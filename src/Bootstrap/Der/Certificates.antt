-- ===== src/Bootstrap/Der/Certificates.antt =====
-- src/lwm2m/bootstrap.rs: the checks of a device certificate. What the crates x509_cert, p256 and
-- base64 decode and verify is a record of functions.
use Prim.Native.Nat.{bit_and}
use smart_garden_gateway_lwm.Prelude.{
  ℕ, zero, suc, Bool, true, false, ◌&&◌, Option, none, some, List, [], ◌∷◌, Bytes, bytes, ltb, ◌==◌,
  if◌then◌else◌, length, get_elem?, Outcome, ok, panic, expect, ◌>>=◌, list_dec, ℕ_discrete,
}
use smart_garden_gateway_lwm.Bootstrap.Der.{DerItemIter, DerItem, der_item_iter, next}

-- What the checks read of a decoded certificate.
pub record Extension : Type 0 where
  pub extn_id : Bytes
  pub extn_value : Bytes

pub record Certificate : Type 0 where
  pub issuer : Bytes
  pub subject : Bytes
  pub extensions : Option (List Extension)
  pub subject_public_key_info : Option Bytes
  pub signature : Option Bytes

-- The functions of the crates: decoding, and the check of a signature with a key.
pub record Crates : Type 0 where
  pub base64_decode : Bytes → Option Bytes
  pub from_der : Bytes → Option Certificate
  pub from_public_key_der : Bytes → Option Bytes
  pub signature_from_der : Bytes → Option Bytes
  pub verify : Bytes → Bytes → Bytes → Bool

-- The errors, a constructor for each message.
pub data CertError : Type 0 where
  device_cert_decode : CertError
  unknown_issuer : CertError
  missing_extension : Bytes → CertError
  unexpected_item : Bytes → CertError
  digital_signature_not_set : CertError
  client_auth_not_found : CertError
  ca_spki_encode : CertError
  ca_public_key_parse : CertError
  no_tbs : CertError
  signature_not_octet_aligned : CertError
  signature_parse : CertError
  signature_verification_failed : CertError
  no_sgtin_uri : CertError
  sgtin_mismatch : Bytes → CertError

-- A check passes, or fails by an error, or panics. `?` leaves at the first error.
abbrev pub Checked : Type 0
Checked = Outcome (Option CertError)

abbrev pub passed : Checked
passed = ok none

abbrev pub failed : CertError → Checked
failed e = ok (some e)

abbrev pub and_then : Checked → Checked → Checked
and_then (ok none) later = later
and_then (ok (some e)) later = ok (some e)
and_then panic later = panic

unfoldable pub same_text : Bytes → Bytes → Bool
unfolding list_dec
same_text a b = elim (list_dec ℕ_discrete a b) [ yes p ↦ true | no n ↦ false ]

-- `find_extension`
unfoldable pub find_in : List Extension → Bytes → Option Bytes
unfolding same_text
find_in [] oid = none
find_in (e ∷ es) oid =
    let later = find_in es oid in if same_text e.extn_id oid then some e.extn_value else later

unfoldable pub find_extension : Certificate → Bytes → Option Bytes
unfolding find_in
find_extension cert oid = elim cert.extensions [ none ↦ none | some es ↦ find_in es oid ]

-- `Iterator::find` over the items, with fuel; where the fuel ran out it would panic.
unfoldable pub find_item : ℕ → (DerItem → Bool) → ℕ → DerItemIter → Outcome (Option DerItem)
unfolding next
find_item usize test zero items = panic
find_item usize test (suc fuel) items = next usize items >>= λ step. elim step.1 [
  | none ↦ ok none
  | some item ↦ if test item then ok (some item) else find_item usize test fuel step.0
]

-- Every item has two bytes at least, so that the length of the bytes is fuel enough.
unfoldable pub find_in_items : ℕ → (DerItem → Bool) → Bytes → Outcome (Option DerItem)
unfolding find_item
find_in_items usize test content =
    find_item usize test (suc (length content)) (der_item_iter content 0)

-- The first item, if it has the tag.
abbrev pub with_tag : ℕ → Option DerItem → Option Bytes
with_tag tag none = none
with_tag tag (some (t, value)) = if t == tag then some value else none

unfoldable pub first_item : ℕ → ℕ → Bytes → Outcome (Option Bytes)
unfolding next
first_item usize tag content =
    next usize (der_item_iter content 0) >>= λ step. ok (with_tag tag step.1)

abbrev pub bit_string_check : Option Bytes → Checked
bit_string_check none = failed (unexpected_item (bytes "KeyUsage"))
bit_string_check (some bs) =
    if ltb (length bs) 2
    then failed digital_signature_not_set
    else expect (get_elem? bs 1) >>= λ b.
        if bit_and b 128 == 0 then failed digital_signature_not_set else passed

-- `cert_check_key_usage`
unfoldable pub cert_check_key_usage : ℕ → Certificate → Checked
unfolding find_extension first_item
cert_check_key_usage usize cert = elim (find_extension cert (85 ∷ 29 ∷ 15 ∷ [])) [
  | none ↦ failed (missing_extension (bytes "KeyUsage"))
  | some value ↦ first_item usize 3 value >>= bit_string_check
]

abbrev pub client_auth : Bytes
client_auth = 43 ∷ 6 ∷ 1 ∷ 5 ∷ 5 ∷ 7 ∷ 3 ∷ 2 ∷ []

unfoldable pub is_client_auth : DerItem → Bool
unfolding same_text
is_client_auth (tag, value) = (tag == 6) && same_text value client_auth

abbrev pub found_client_auth : Option DerItem → Checked
found_client_auth none = failed client_auth_not_found
found_client_auth (some item) = passed

unfoldable pub eku_sequence : ℕ → Option Bytes → Checked
unfolding find_in_items is_client_auth
eku_sequence usize none = failed (unexpected_item (bytes "EKU"))
eku_sequence usize (some sequence) =
    find_in_items usize is_client_auth sequence >>= found_client_auth

unfoldable pub eku_extension : ℕ → Option Bytes → Checked
unfolding first_item eku_sequence
eku_extension usize none = failed (missing_extension (bytes "ExtendedKeyUsage"))
eku_extension usize (some value) = first_item usize 48 value >>= eku_sequence usize

-- `cert_check_eku`
unfoldable pub cert_check_eku : ℕ → Certificate → Checked
unfolding find_extension eku_extension
cert_check_eku usize cert = eku_extension usize (find_extension cert (85 ∷ 29 ∷ 37 ∷ []))
