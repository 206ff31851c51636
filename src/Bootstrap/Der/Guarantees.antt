-- ===== src/Bootstrap/Der/Guarantees.antt =====
-- src/lwm2m/bootstrap.rs: what the checks of a device certificate guarantee together.
use smart_garden_gateway_lwm.Prelude.{
  ℕ, Bool, true, false, ◌≡◌, refl, sym, ◌∙◌, subst, ap, Option, none, some, List, [], ◌∷◌, Bytes,
  ok,
}
use smart_garden_gateway_lwm.Text.Utf8.{to_ascii_lowercase}
use smart_garden_gateway_lwm.Bootstrap.Der.Certificates.{
  Certificate, Crates, passed, find_extension, find_in_items, first_item,
}
use smart_garden_gateway_lwm.Bootstrap.Der.Validation.{
  tbs_bytes_from_cert_der, check_tbs, cert_verify_signature, is_sgtin_uri, with_issuer,
  with_certificate, check_spki, check_key, check_signature, check_parsed, signature_verdict,
  cert_check_sgtin, find_issuer, validate_device_certificate,
}
use smart_garden_gateway_lwm.Bootstrap.Der.Acceptance.{
  bind-passed, sgtin_of, NamedIn, NamedBy, san_extension-passed, check_all-sgtin, IssuedBy,
  find_issuer-known,
}

-- The parts of the signature check, from its end.
abbrev pub VerifiedBy : Crates → Bytes → Bytes → Option Bytes → Type 0
VerifiedBy crates key tbs octets =
    (o : Bytes) × ((signature : Bytes) × ((octets ≡ some o)
        × ((crates.signature_from_der o ≡ some signature)
            × (crates.verify key tbs signature ≡ true))))

signature_verdict-passed : (b : Bool) → signature_verdict b ≡ passed → b ≡ true
signature_verdict-passed true h = refl
signature_verdict-passed false h = absurd (cc)

check_parsed-passed :
    (crates : Crates) (key tbs : Bytes) (found : Option Bytes)
    → check_parsed crates key tbs found ≡ passed
    → (signature : Bytes) × ((found ≡ some signature) × (crates.verify key tbs signature ≡ true))
check_parsed-passed crates key tbs none h = absurd (cc)
check_parsed-passed crates key tbs (some signature) h =
    (signature, (refl, signature_verdict-passed (crates.verify key tbs signature) h))

check_signature-passed :
    (crates : Crates) (key tbs : Bytes) (octets : Option Bytes)
    → check_signature crates key tbs octets ≡ passed
    → VerifiedBy crates key tbs octets
check_signature-passed crates key tbs none h = absurd (cc)
check_signature-passed crates key tbs (some o) h =
    let (signature, (is, verified)) =
      check_parsed-passed crates key tbs (crates.signature_from_der o) h in
    (o, (signature, (refl, (is, verified))))

abbrev pub SignedWith : ℕ → Crates → Certificate → Bytes → Bytes → Type 0
SignedWith usize crates cert cert_der key =
    (tbs : Bytes) × ((tbs_bytes_from_cert_der usize cert_der ≡ ok (some tbs))
      × VerifiedBy crates key tbs cert.signature)

check_tbs-passed :
    (crates : Crates) (key : Bytes) (cert : Certificate) (found : Option Bytes)
    → check_tbs crates key cert found ≡ passed
    → (tbs : Bytes) × ((found ≡ some tbs) × VerifiedBy crates key tbs cert.signature)
check_tbs-passed crates key cert none h = absurd (cc)
check_tbs-passed crates key cert (some tbs) h =
    (tbs, (refl, check_signature-passed crates key tbs cert.signature h))

check_key-passed :
    (usize : ℕ) (crates : Crates) (cert : Certificate) (cert_der : Bytes) (found : Option Bytes)
    → check_key usize crates cert cert_der found ≡ passed
    → (key : Bytes) × ((found ≡ some key) × SignedWith usize crates cert cert_der key)
unfolding check_key
check_key-passed usize crates cert cert_der none h = absurd (cc)
check_key-passed usize crates cert cert_der (some key) h =
    let (found, (is, checked)) =
      bind-passed (tbs_bytes_from_cert_der usize cert_der) (check_tbs crates key cert) h in
    let (tbs, (same, verified)) = check_tbs-passed crates key cert found checked in
    (key, (refl, (tbs, (is ∙ ap ok same, verified))))

check_spki-passed :
    (usize : ℕ) (crates : Crates) (cert : Certificate) (cert_der : Bytes) (found : Option Bytes)
    → check_spki usize crates cert cert_der found ≡ passed
    → (spki : Bytes) × ((found ≡ some spki)
        × ((key : Bytes) × ((crates.from_public_key_der spki ≡ some key)
              × SignedWith usize crates cert cert_der key)))
unfolding check_spki
check_spki-passed usize crates cert cert_der none h = absurd (cc)
check_spki-passed usize crates cert cert_der (some spki) h =
    let (key, (is, signed)) =
      check_key-passed usize crates cert cert_der (crates.from_public_key_der spki) h in
    (spki, (refl, (key, (is, signed))))

-- What follows from the acceptance of a certificate for an endpoint.
abbrev pub IsChecked : ℕ → Crates → List Bytes → Bytes → Bytes → Certificate → Type 0
IsChecked usize crates cas cert_der endpoint cert =
    (ca : Certificate) × (IssuedBy crates cas cert ca
      × ((spki : Bytes) × ((ca.subject_public_key_info ≡ some spki)
            × ((key : Bytes) × ((crates.from_public_key_der spki ≡ some key)
                  × (SignedWith usize crates cert cert_der key
                      × NamedBy usize endpoint (find_extension cert (85 ∷ 29 ∷ 17 ∷ []))))))))

with_issuer-passed :
    (usize : ℕ) (crates : Crates) (cas : List Bytes) (cert_der endpoint : Bytes)
    (cert : Certificate) (found : Option Certificate)
    → find_issuer crates cas cert.issuer ≡ found
    → with_issuer usize crates cert_der endpoint cert found ≡ passed
    → IsChecked usize crates cas cert_der endpoint cert
unfolding with_issuer cert_verify_signature cert_check_sgtin
with_issuer-passed usize crates cas cert_der endpoint cert none e h = absurd (cc)
with_issuer-passed usize crates cas cert_der endpoint cert (some ca) e h =
    let (signed, named) = check_all-sgtin usize crates cert_der endpoint cert ca h in
    let (spki, (is, (key, (parsed, verified)))) =
      check_spki-passed usize crates cert cert_der ca.subject_public_key_info signed in
    (
      ca,
      (
        find_issuer-known crates cas cert.issuer ca e,
        (
          spki,
          (
            is,
            (
              key,
              (
                parsed,
                (
                  verified,
                  san_extension-passed usize endpoint (find_extension cert (85 ∷ 29 ∷ 17 ∷ []))
                      named,
                ),
              ),
            ),
          ),
        ),
      ),
    )

with_certificate-passed :
    (usize : ℕ) (crates : Crates) (cas : List Bytes) (cert_der endpoint : Bytes)
    (found : Option Certificate)
    → with_certificate usize crates cas cert_der endpoint found ≡ passed
    → (cert : Certificate) × ((found ≡ some cert)
        × IsChecked usize crates cas cert_der endpoint cert)
unfolding with_certificate
with_certificate-passed usize crates cas cert_der endpoint none h = absurd (cc)
with_certificate-passed usize crates cas cert_der endpoint (some cert) h = (
  cert,
  (
    refl,
    with_issuer-passed usize crates cas cert_der endpoint cert (find_issuer crates cas cert.issuer)
        refl h,
  ),
)

-- The parts of the code's run on a certificate that is accepted.
pub validate_device_certificate-IsChecked :
    (usize : ℕ) (crates : Crates) (cas : List Bytes) (cert_der endpoint : Bytes)
    → validate_device_certificate usize crates cas cert_der endpoint ≡ passed
    → (cert : Certificate) × ((crates.from_der cert_der ≡ some cert)
        × IsChecked usize crates cas cert_der endpoint cert)
unfolding validate_device_certificate
validate_device_certificate-IsChecked usize crates cas cert_der endpoint h =
    with_certificate-passed usize crates cas cert_der endpoint (crates.from_der cert_der) h

NamedIn-unique :
    (usize : ℕ) (a b : Bytes) (first first' : Option Bytes)
    → first ≡ first'
    → NamedIn usize a first
    → NamedIn usize b first'
    → to_ascii_lowercase a ≡ to_ascii_lowercase b
NamedIn-unique usize a b first first' e (s, (is, (item, (found, name))))
      (s', (is', (item', (found', name')))) =
    let same : s ≡ s' = cc in
    let both : find_in_items usize is_sgtin_uri s ≡ find_in_items usize is_sgtin_uri s' =
      ap (find_in_items usize is_sgtin_uri) same in
    let one : item ≡ item' = cc in sym name ∙ ap (λ i. to_ascii_lowercase (sgtin_of i)) one ∙ name'

NamedBy-unique :
    (usize : ℕ) (a b : Bytes) (extension : Option Bytes)
    → NamedBy usize a extension
    → NamedBy usize b extension
    → to_ascii_lowercase a ≡ to_ascii_lowercase b
NamedBy-unique usize a b extension (v, (is, (first, (found, named))))
      (v', (is', (first', (found', named')))) =
    let same : v ≡ v' = cc in
    let both : first_item usize 48 v ≡ first_item usize 48 v' = ap (first_item usize 48) same in
    let one : first ≡ first' = cc in NamedIn-unique usize a b first first' one named named'

-- One certificate is accepted for one device: two endpoints that the same bytes are accepted for
-- differ in the case of letters at most.
pub validate_device_certificate_unique :
    (usize : ℕ) (crates : Crates) (cas : List Bytes) (cert_der a b : Bytes)
    → validate_device_certificate usize crates cas cert_der a ≡ passed
    → validate_device_certificate usize crates cas cert_der b ≡ passed
    → to_ascii_lowercase a ≡ to_ascii_lowercase b
validate_device_certificate_unique usize crates cas cert_der a b h k =
    let (cert, (is, (ca, (_, (_, (_, (_, (_, (_, named))))))))) =
      validate_device_certificate-IsChecked usize crates cas cert_der a h in
    let (cert', (is', (ca', (_, (_, (_, (_, (_, (_, named'))))))))) =
      validate_device_certificate-IsChecked usize crates cas cert_der b k in
    let same : cert' ≡ cert = cc in
    NamedBy-unique usize a b (find_extension cert (85 ∷ 29 ∷ 17 ∷ [])) named
      (subst (λ c. NamedBy usize b (find_extension c (85 ∷ 29 ∷ 17 ∷ []))) same named')
