-- ===== src/Examples/Certificates.antt =====
-- Device certificates (src/lwm2m/bootstrap.rs) at concrete bytes. The crates are stood in for by
-- functions that decode every text to one certificate, which is its own issuer.
use smart_garden_gateway_lwm.Prelude.{
  All, ℕ_discrete, ◌^◌, ◌≡◌, refl, ap, ◌∙◌, subst, ◌↔◌, true, some, List, [], ◌∷◌, Bytes, bytes,
  length, drop, panic, Returns, arith, Elem,
}
use smart_garden_gateway_lwm.Bootstrap.Der.{der_item_iter, next}
use smart_garden_gateway_lwm.Bootstrap.Der.Reader.{be_value, read_item}
use smart_garden_gateway_lwm.Bootstrap.Der.Iteration.{Yields, next-read_item}
use smart_garden_gateway_lwm.Bootstrap.Der.Overflow.{next-panic}
use smart_garden_gateway_lwm.Bootstrap.Der.Certificates.{
  Certificate, Crates, passed, find_extension, cert_check_eku, client_auth,
}
use smart_garden_gateway_lwm.Bootstrap.Der.Validation.{validate_device_certificate}
use smart_garden_gateway_lwm.Bootstrap.Der.Genuine.{
  IsGenuine, AreBytes, alternative_names, validate_device_certificate-IsGenuine,
}
use smart_garden_gateway_lwm.Bootstrap.Der.{DerItem}
use smart_garden_gateway_lwm.Bootstrap.Der.Iteration.{IsByte}
use smart_garden_gateway_lwm.Bootstrap.Der.Encoding.{encode_item, encode_items}
use smart_garden_gateway_lwm.Bootstrap.Der.Usage.{cert_check_eku-Elem}

abbrev three_bytes : Bytes
three_bytes = 2 ∷ 1 ∷ 5 ∷ []

next-read_item_example :
    Returns
      (next (2 ^ 64) (der_item_iter three_bytes 0))
      (Yields three_bytes (read_item (drop 0 three_bytes)))
next-read_item_example =
    next-read_item (2 ^ 64) three_bytes 0 (omega arith) (omega arith)
      (omega arith, (omega arith, (omega arith, tt)))

next-panic_example : next (2 ^ 32) (der_item_iter (3 ∷ 132 ∷ 255 ∷ 255 ∷ 255 ∷ 255 ∷ []) 0) ≡ panic
unfolding be_value
next-panic_example =
    next-panic 3 255 255 255 255 [] (omega arith, (omega arith, (omega arith, (omega arith, tt))))
      (omega arith)

-- A sequence with client authentication, and one with the name `sgtin:ab`.
abbrev usage : Bytes
usage = 48 ∷ 10 ∷ 6 ∷ 8 ∷ client_auth

abbrev names : Bytes
names = 48 ∷ 10 ∷ 134 ∷ 8 ∷ bytes "sgtin:ab"

abbrev certificate : Certificate
certificate = record {
  issuer = bytes "ca";
  subject = bytes "ca";
  extensions = some (
      record { extn_id = 85 ∷ 29 ∷ 15 ∷ []; extn_value = 3 ∷ 2 ∷ 7 ∷ 128 ∷ [] }
      ∷ record { extn_id = 85 ∷ 29 ∷ 37 ∷ []; extn_value = usage }
      ∷ record { extn_id = 85 ∷ 29 ∷ 17 ∷ []; extn_value = names }
      ∷ []);
  subject_public_key_info = some (7 ∷ []);
  signature = some (9 ∷ []);
}

abbrev crates : Crates
crates = record {
  base64_decode = some;
  from_der = λ der. some certificate;
  from_public_key_der = some;
  signature_from_der = some;
  verify = λ key tbs signature. true;
}

abbrev cert_der : Bytes
cert_der = 48 ∷ 4 ∷ 48 ∷ 2 ∷ 1 ∷ 1 ∷ []

accepted_upper :
    validate_device_certificate (2 ^ 64) crates (bytes "pem" ∷ []) cert_der (bytes "AB") ≡ passed
unfolding validate_device_certificate ℕ_discrete
accepted_upper = refl

cert_der-AreBytes : AreBytes (2 ^ 64) cert_der
cert_der-AreBytes = (
  (omega arith, (omega arith, (omega arith, (omega arith, (omega arith, (omega arith, tt)))))),
  omega arith,
)

bytes_names : All IsByte names
bytes_names = (
  omega arith,
  (
    omega arith,
    (
      omega arith,
      (
        omega arith,
        (
          omega arith,
          (
            omega arith,
            (
              omega arith,
              (omega arith, (omega arith, (omega arith, (omega arith, (omega arith, tt))))),
            ),
          ),
        ),
      ),
    ),
  ),
)

names-AreBytes :
    (cert : Certificate) (value : Bytes)
    → crates.from_der cert_der ≡ some cert
    → alternative_names cert ≡ some value
    → AreBytes (2 ^ 64) value
unfolding find_extension ℕ_discrete
names-AreBytes cert value is has =
    let same : certificate ≡ cert = cc in
    let given : some names ≡ some value = ap alternative_names same ∙ has in
    let is_names : names ≡ value = cc in
    subst (AreBytes (2 ^ 64)) is_names (bytes_names, omega arith)

validate_device_certificate-IsGenuine_example :
    (cert : Certificate) × ((crates.from_der cert_der ≡ some cert)
      × IsGenuine crates (bytes "pem" ∷ []) cert_der (bytes "AB") cert)
validate_device_certificate-IsGenuine_example =
    validate_device_certificate-IsGenuine (2 ^ 64) crates (bytes "pem" ∷ []) cert_der (bytes "AB")
      cert_der-AreBytes names-AreBytes accepted_upper

abbrev usages : List DerItem
usages = (6, client_auth) ∷ []

usage-IsByte : All IsByte (encode_item (48, encode_items usages))
unfolding encode_item encode_items
usage-IsByte = (
  omega arith,
  (
    omega arith,
    (
      omega arith,
      (
        omega arith,
        (
          omega arith,
          (
            omega arith,
            (
              omega arith,
              (omega arith, (omega arith, (omega arith, (omega arith, (omega arith, tt))))),
            ),
          ),
        ),
      ),
    ),
  ),
)

usage-found :
    find_extension certificate (85 ∷ 29 ∷ 37 ∷ []) ≡ some (encode_item (48, encode_items usages))
unfolding find_extension ℕ_discrete encode_item encode_items
usage-found = refl

usage-small : length (encode_item (48, encode_items usages)) ≡ 12
unfolding encode_item encode_items
usage-small = refl

usages-small : length (encode_items usages) ≡ 10
unfolding encode_items
usages-small = refl

cert_check_eku-Elem_example :
    (cert_check_eku (2 ^ 64) certificate ≡ passed) ↔ Elem (6, client_auth) usages
cert_check_eku-Elem_example =
    cert_check_eku-Elem (2 ^ 64) certificate usages usage-found (omega (arith, usage-small))
      usage-IsByte (omega (arith, usages-small)) (omega arith, tt)
