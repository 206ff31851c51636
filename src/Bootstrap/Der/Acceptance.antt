-- ===== src/Bootstrap/Der/Acceptance.antt =====
-- src/lwm2m/bootstrap.rs: what an accepted device certificate guarantees.
use smart_garden_gateway_lwm.Prelude.{
  ℕ, Bool, true, false, ◌≡◌, refl, ◌∙◌, subst, ap, Option, none, some, List, [], ◌∷◌, Bytes, drop,
  Outcome, ok, panic, ◌>>=◌, Bool-cases, inl, inr, if◌then◌else◌, list_dec, ℕ_discrete, Elem, ◌⊎◌,
}
use smart_garden_gateway_lwm.Text.Utf8.{to_ascii_lowercase, eq_ignore_ascii_case}
use smart_garden_gateway_lwm.Bootstrap.Der.{DerItem}
use smart_garden_gateway_lwm.Bootstrap.Der.Certificates.{
  Certificate, Crates, Checked, passed, and_then, same_text, find_in_items, first_item,
  cert_check_key_usage, cert_check_eku,
}
use smart_garden_gateway_lwm.Bootstrap.Der.Validation.{
  cert_verify_signature, is_sgtin_uri, text_or_empty, compare_sgtin, san_sequence, sgtin_verdict,
  san_extension, cert_check_sgtin, find_issuer, pem_to_der, decode_ca, with_subject, or_else,
  check_all,
}

-- A check that passes at the end of a chain has the chain's first part.
pub bind-passed :
    {A : Type 0} (m : Outcome A) (f : A → Checked)
    → (m >>= f) ≡ passed
    → (a : A) × ((m ≡ ok a) × (f a ≡ passed))
bind-passed (ok a) f h = (a, (refl, h))
bind-passed panic f h = absurd (cc)

and_then-passed : (a b : Checked) → and_then a b ≡ passed → (a ≡ passed) × (b ≡ passed)
and_then-passed (ok none) b h = (refl, h)
and_then-passed (ok (some e)) b h = absurd (cc)
and_then-passed panic b h = absurd (cc)

eq_ignore_ascii_case-lower :
    (a b : Bytes) → eq_ignore_ascii_case a b ≡ true → to_ascii_lowercase a ≡ to_ascii_lowercase b
unfolding eq_ignore_ascii_case
eq_ignore_ascii_case-lower a b h =
    elim (list_dec ℕ_discrete (to_ascii_lowercase a) (to_ascii_lowercase b))
        as (λ d.
          elim d [ yes p ↦ true | no n ↦ false ] ≡ true
          → to_ascii_lowercase a ≡ to_ascii_lowercase b) [
            | yes p ↦ λ _. p
            | no n ↦ λ k. absurd (cc)
          ]
      h

-- The name that a `sgtin:` URI gives.
abbrev pub sgtin_of : DerItem → Bytes
sgtin_of (tag, value) = text_or_empty (drop 6 value)

sgtin_verdict-passed : (t : Bytes) (b : Bool) → sgtin_verdict t b ≡ passed → b ≡ true
sgtin_verdict-passed t true h = refl
sgtin_verdict-passed t false h = absurd (cc)

compare_sgtin-passed :
    (endpoint : Bytes) (found : Option DerItem)
    → compare_sgtin endpoint found ≡ passed
    → (item : DerItem) × ((found ≡ some item)
        × (to_ascii_lowercase (sgtin_of item) ≡ to_ascii_lowercase endpoint))
unfolding compare_sgtin
compare_sgtin-passed endpoint none h = absurd (cc)
compare_sgtin-passed endpoint (some (tag, value)) h = (
  (tag, value),
  (
    refl,
    eq_ignore_ascii_case-lower (sgtin_of (tag, value)) endpoint (
        sgtin_verdict-passed (sgtin_of (tag, value))
          (eq_ignore_ascii_case (sgtin_of (tag, value)) endpoint) h),
  ),
)

-- A certificate that passes the check of the name gives a name, the endpoint up to case.
abbrev pub NamedIn : ℕ → Bytes → Option Bytes → Type 0
NamedIn usize endpoint found =
    (sequence : Bytes) × ((found ≡ some sequence)
      × ((item : DerItem) × ((find_in_items usize is_sgtin_uri sequence ≡ ok (some item))
            × (to_ascii_lowercase (sgtin_of item) ≡ to_ascii_lowercase endpoint))))

san_sequence-passed :
    (usize : ℕ) (endpoint : Bytes) (found : Option Bytes)
    → san_sequence usize endpoint found ≡ passed
    → NamedIn usize endpoint found
unfolding san_sequence
san_sequence-passed usize endpoint none h = absurd (cc)
san_sequence-passed usize endpoint (some sequence) h =
    let (found, (there, same)) =
      bind-passed (find_in_items usize is_sgtin_uri sequence) (compare_sgtin endpoint) h in
    let (item, (is, name)) = compare_sgtin-passed endpoint found same in
    (sequence, (refl, (item, (there ∙ ap ok is, name))))

-- The first item of the extension with the alternative names.
abbrev pub NamedBy : ℕ → Bytes → Option Bytes → Type 0
NamedBy usize endpoint extension =
    (value : Bytes) × ((extension ≡ some value)
      × ((first : Option Bytes) × ((first_item usize 48 value ≡ ok first)
            × NamedIn usize endpoint first)))

pub san_extension-passed :
    (usize : ℕ) (endpoint : Bytes) (extension : Option Bytes)
    → san_extension usize endpoint extension ≡ passed
    → NamedBy usize endpoint extension
unfolding san_extension
san_extension-passed usize endpoint none h = absurd (cc)
san_extension-passed usize endpoint (some value) h =
    let (first, (there, rest)) =
      bind-passed (first_item usize 48 value) (san_sequence usize endpoint) h in
    (value, (refl, (first, (there, san_sequence-passed usize endpoint first rest))))

pub check_all-sgtin :
    (usize : ℕ) (crates : Crates) (cert_der endpoint : Bytes) (cert ca : Certificate)
    → check_all usize crates cert_der endpoint cert ca ≡ passed
    → (cert_verify_signature usize crates cert ca cert_der ≡ passed)
      × (cert_check_sgtin usize cert endpoint ≡ passed)
unfolding check_all
check_all-sgtin usize crates cert_der endpoint cert ca h =
    let sgtin = cert_check_sgtin usize cert endpoint in
    let signed = cert_verify_signature usize crates cert ca cert_der in
    let eku = cert_check_eku usize cert in
    let (_, a) =
      and_then-passed (cert_check_key_usage usize cert) (and_then eku (and_then signed sgtin)) h in
    let (_, b) = and_then-passed eku (and_then signed sgtin) a in and_then-passed signed sgtin b

-- The certificate of a known CA that issued `cert`, by its name.
abbrev pub IssuedBy : Crates → List Bytes → Certificate → Certificate → Type 0
IssuedBy crates cas cert ca =
    (ca.subject ≡ cert.issuer)
    × ((pem : Bytes) × (Elem pem cas × (decode_ca crates (pem_to_der crates pem) ≡ some ca)))

pub same_text-eq : (a b : Bytes) → same_text a b ≡ true → a ≡ b
unfolding same_text
same_text-eq a b h =
    elim (list_dec ℕ_discrete a b) as (λ d. elim d [ yes p ↦ true | no n ↦ false ] ≡ true → a ≡ b) [
      | yes p ↦ λ _. p
      | no n ↦ λ k. absurd (cc)
    ]
      h

with_subject-some :
    (issuer : Bytes) (found : Option Certificate) (ca : Certificate)
    → with_subject issuer found ≡ some ca
    → (found ≡ some ca) × (ca.subject ≡ issuer)
unfolding with_subject
with_subject-some issuer none ca h = absurd (cc)
with_subject-some issuer (some other) ca h = elim (Bool-cases (same_text other.subject issuer)) [
  | inl same ↦
      let is : some other ≡ some ca =
        subst (λ b. (if b then some other else none) ≡ some ca) same h in
      let eq : other ≡ ca = cc in
      (is, subst (λ c. c.subject ≡ issuer) eq (same_text-eq other.subject issuer same))
  | inr different ↦
      let bad : none ≡ some ca =
        subst (λ b. (if b then some other else none) ≡ some ca) different h in
      absurd (cc)
]

or_else-some :
    (a b : Option Certificate) (ca : Certificate)
    → or_else a b ≡ some ca
    → (a ≡ some ca) ⊎ (b ≡ some ca)
or_else-some none b ca h = inr h
or_else-some (some c) b ca h = inl h

pub find_issuer-known :
    (crates : Crates) (cas : List Bytes) (issuer : Bytes) (ca : Certificate)
    → find_issuer crates cas issuer ≡ some ca
    → (ca.subject ≡ issuer)
      × ((pem : Bytes) × (Elem pem cas × (decode_ca crates (pem_to_der crates pem) ≡ some ca)))
unfolding find_issuer
find_issuer-known crates [] issuer ca h = absurd (cc)
find_issuer-known crates (pem ∷ pems) issuer ca h =
    let decoded = decode_ca crates (pem_to_der crates pem) in
    elim (or_else-some (with_subject issuer decoded) (find_issuer crates pems issuer) ca h) [
      | inl here ↦
          let (is, same) = with_subject-some issuer decoded ca here in (same, (pem, (inl refl, is)))
      | inr there ↦
          let (same, (p, (at, is))) = find_issuer-known crates pems issuer ca there in
          (same, (p, (inr at, is)))
    ]
