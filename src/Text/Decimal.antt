-- ===== src/Text/Decimal.antt =====
-- Numbers in decimal are read back.
use smart_garden_gateway_lwm.Prelude.{
  ℕ, zero, suc, ◌+◌, ◌-◌, ◌*◌, ◌/◌, ◌%◌, ◌<◌, ◌≤◌, ◌≡◌, ◌≢◌, refl, ◌∙◌, ◌&&◌, none, some, [], ◌∷◌,
  ◌++◌, Bytes, ltb, ◌==◌, arith, Bool-cases, inl, inr, All,
}
use smart_garden_gateway_lwm.Text.{digits_of, decimal, is_digit, parse_digits, parse_uint}

parse_digits-append :
    (limit acc : ℕ) (xs ys : Bytes)
    → parse_digits limit acc (xs ++ ys)
      ≡ elim (parse_digits limit acc xs) [ none ↦ none | some a ↦ parse_digits limit a ys ]
unfolding parse_digits
parse_digits-append limit acc [] ys = refl
parse_digits-append limit acc (x ∷ xs) ys =
    elim (Bool-cases (is_digit x && ltb (acc * 10 + (x - 48)) limit)) [
      | inl fits ↦ rw fits (parse_digits-append limit (acc * 10 + (x - 48)) xs ys)
      | inr bad ↦ rw bad refl
    ]

parse_digits_one :
    (limit acc d : ℕ)
    → d < 10
    → acc * 10 + d < limit
    → parse_digits limit acc ((48 + d) ∷ []) ≡ some (acc * 10 + d)
unfolding parse_digits
parse_digits_one limit acc d h fits = ground arith

parse_digits-digits_of :
    (f n limit : ℕ) → n < f → n < limit → parse_digits limit 0 (digits_of f n) ≡ some n
unfolding digits_of
parse_digits-digits_of zero n limit h fits = absurd (omega arith)
parse_digits-digits_of (suc f) n limit h fits = elim (Bool-cases (ltb n 10)) [
  | inl small ↦ rw small (parse_digits_one limit 0 n (ground arith) (omega arith) ∙ ground arith)
  | inr large ↦
      rw
        (
          large,
          parse_digits-append limit 0 (digits_of f (n / 10)) ((48 + n % 10) ∷ []),
          parse_digits-digits_of f (n / 10) limit (ground arith) (omega arith),
        )
        (parse_digits_one limit (n / 10) (n % 10) (omega arith) (omega arith) ∙ ground arith)
]

abbrev pub IsDigit : ℕ → Type 0
IsDigit b = (48 ≤ b) × (b ≤ 57)

All-append : (P : ℕ → Type 0) (xs ys : Bytes) → All P xs → All P ys → All P (xs ++ ys)
All-append P [] ys a b = b
All-append P (x ∷ xs) ys (h, a) b = (h, All-append P xs ys a b)

digits_of-IsDigit : (f n : ℕ) → All IsDigit (digits_of f n)
unfolding digits_of
digits_of-IsDigit zero n = tt
digits_of-IsDigit (suc f) n = elim (Bool-cases (ltb n 10)) [
  | inl small ↦ rw small ((omega arith, ground arith), tt)
  | inr large ↦ rw large (
      All-append IsDigit (digits_of f (n / 10)) ((48 + n % 10) ∷ []) (digits_of-IsDigit f (n / 10))
        ((omega arith, omega arith), tt))
]

pub decimal-IsDigit : (n : ℕ) → All IsDigit (decimal n)
unfolding decimal
decimal-IsDigit n = digits_of-IsDigit (suc n) n

append-ne-nil : (xs : Bytes) (d : ℕ) → xs ++ (d ∷ []) ≢ []
append-ne-nil [] d e = cc
append-ne-nil (x ∷ xs) d e = cc

digits_of-ne-nil : (f n : ℕ) → digits_of (suc f) n ≢ []
unfolding digits_of
digits_of-ne-nil f n = elim (Bool-cases (ltb n 10)) [
  | inl small ↦ rw small (λ e. cc)
  | inr large ↦ rw large (append-ne-nil (digits_of f (n / 10)) (48 + n % 10))
]

parse_uint_digits :
    (limit n : ℕ) (text : Bytes)
    → All IsDigit text
    → text ≢ []
    → parse_digits limit 0 text ≡ some n
    → parse_uint limit text ≡ some n
unfolding parse_uint
parse_uint_digits limit n [] digits some_digit h = absurd (some_digit refl)
parse_uint_digits limit n (b ∷ []) digits some_digit h = h
parse_uint_digits limit n (b ∷ c ∷ text) (d, digits) some_digit h = elim (Bool-cases (b == b'+')) [
  | inl sign ↦ absurd (ground arith)
  | inr digit ↦ rw digit h
]

-- A number of the type, printed in decimal, is parsed to itself.
pub parse_uint-decimal : (limit n : ℕ) → n < limit → parse_uint limit (decimal n) ≡ some n
unfolding decimal
parse_uint-decimal limit n fits =
    parse_uint_digits limit n (digits_of (suc n) n) (digits_of-IsDigit (suc n) n)
      (digits_of-ne-nil n n) (parse_digits-digits_of (suc n) n limit (omega arith) fits)

pub decimal-ne-nil : (n : ℕ) → decimal n ≢ []
unfolding decimal
decimal-ne-nil n = digits_of-ne-nil n n
