-- ===== src/Prelude/Bits.antt =====
-- `|` of fields that do not overlap and `&` with a low mask, as arithmetic.
use Prim.Native.Nat.{
  ℕ, zero, suc, ◌+◌, ◌*◌, ◌/◌, ◌%◌, ◌≤◌, ◌<◌, min, max, digits, bit_and, bit_or, bit_or-bitwise,
  bit_and-bitwise,
}
use mathlib.Core.Path.{◌≡◌, refl, ap, ◌∙◌}
use native.Mathlib.Omega.{arith}

abbrev or_digits : ℕ → ℕ → ℕ → ℕ
or_digits n a b = digits (λ b. b) max n a b

abbrev and_digits : ℕ → ℕ → ℕ → ℕ
and_digits n a b = digits (λ b. zero) min n a b

-- Any count of digits that covers the first number gives the same result.
or_enough : (n m a b : ℕ) → a ≤ n → a ≤ m → or_digits n a b ≡ or_digits m a b
or_enough zero zero a b p q = refl
or_enough zero (suc m) zero b p q = refl
or_enough (suc n) zero zero b p q = refl
or_enough (suc n) (suc m) zero b p q = refl
or_enough (suc n) (suc m) (suc a) b p q =
    omega (arith, or_enough n m (suc a / 2) (b / 2) (omega arith) (omega arith))
or_enough n m a b p q = absurd (omega arith)

and_enough : (n m a b : ℕ) → a ≤ n → a ≤ m → and_digits n a b ≡ and_digits m a b
and_enough zero zero a b p q = refl
and_enough zero (suc m) zero b p q = refl
and_enough (suc n) zero zero b p q = refl
and_enough (suc n) (suc m) zero b p q = refl
and_enough (suc n) (suc m) (suc a) b p q =
    omega (arith, and_enough n m (suc a / 2) (b / 2) (omega arith) (omega arith))
and_enough n m a b p q = absurd (omega arith)

-- The lowest digit apart.
or_unfold : (a b : ℕ) → bit_or a b ≡ bit_or (a / 2) (b / 2) * 2 + max (a % 2) (b % 2)
or_unfold zero b = omega (arith, bit_or-bitwise 0 b, bit_or-bitwise 0 (b / 2))
or_unfold (suc a) b = omega (
  arith,
  bit_or-bitwise (suc a) b,
  bit_or-bitwise (suc a / 2) (b / 2),
  or_enough a (suc a / 2) (suc a / 2) (b / 2) (omega arith) (omega arith),
)

and_unfold : (a b : ℕ) → bit_and a b ≡ bit_and (a / 2) (b / 2) * 2 + min (a % 2) (b % 2)
and_unfold zero b = omega (arith, bit_and-bitwise 0 b, bit_and-bitwise 0 (b / 2))
and_unfold (suc a) b = omega (
  arith,
  bit_and-bitwise (suc a) b,
  bit_and-bitwise (suc a / 2) (b / 2),
  and_enough a (suc a / 2) (suc a / 2) (b / 2) (omega arith) (omega arith),
)

or_zero_below : (n a : ℕ) → a ≤ n → bit_or a 0 ≡ a
or_zero_below n zero h = refl
or_zero_below zero (suc a) h = absurd (omega arith)
or_zero_below (suc n) (suc a) h =
    omega (arith, or_unfold (suc a) 0, or_zero_below n (suc a / 2) (omega arith))

pub or_zero : (a : ℕ) → bit_or a 0 ≡ a
or_zero a = or_zero_below a a (omega arith)

and_zero_below : (n a : ℕ) → a ≤ n → bit_and a 0 ≡ 0
and_zero_below n zero h = refl
and_zero_below zero (suc a) h = absurd (omega arith)
and_zero_below (suc n) (suc a) h =
    omega (arith, and_unfold (suc a) 0, and_zero_below n (suc a / 2) (omega arith))

pub and_zero : (a : ℕ) → bit_and a 0 ≡ 0
and_zero a = and_zero_below a a (omega arith)

-- A number that is shifted by one digit leaves the lowest to the other.
pub or_double : (a b c d : ℕ) → c ≡ 2 * a → d ≡ b / 2 → bit_or c b ≡ 2 * bit_or a d + b % 2
or_double a b c d twice half =
    or_unfold c b
    ∙ ap (λ t. bit_or t (b / 2) * 2 + max (c % 2) (b % 2)) (let e : c / 2 ≡ a = omega arith in e)
    ∙ ap (λ t. bit_or a t * 2 + max (c % 2) (b % 2)) (let e : b / 2 ≡ d = omega arith in e)
    ∙ omega arith

-- `(q << 3) | r` and the like.
pub or_eight : (q r : ℕ) → r < 8 → bit_or (q * 8) r ≡ q * 8 + r
or_eight q r h = omega (
  arith,
  or_double (q * 4) r (q * 8) (r / 2) (omega arith) refl,
  or_double (q * 2) (r / 2) (q * 4) (r / 4) (omega arith) (omega arith),
  or_double q (r / 4) (q * 2) 0 (omega arith) (omega arith),
  or_zero q,
)

pub or_sixteen : (q r : ℕ) → r < 16 → bit_or (q * 16) r ≡ q * 16 + r
or_sixteen q r h = omega (
  arith,
  or_double (q * 8) r (q * 16) (r / 2) (omega arith) refl,
  or_eight q (r / 2) (omega arith),
)

pub or_32 : (q r : ℕ) → r < 32 → bit_or (q * 32) r ≡ q * 32 + r
or_32 q r h = omega (
  arith,
  or_double (q * 16) r (q * 32) (r / 2) (omega arith) refl,
  or_sixteen q (r / 2) (omega arith),
)

pub or_256 : (q r : ℕ) → r < 256 → bit_or (q * 256) r ≡ q * 256 + r
or_256 q r h = omega (
  arith,
  or_double (q * 128) r (q * 256) (r / 2) (omega arith) refl,
  or_double (q * 64) (r / 2) (q * 128) (r / 4) (omega arith) (omega arith),
  or_double (q * 32) (r / 4) (q * 64) (r / 8) (omega arith) (omega arith),
  or_32 q (r / 8) (omega arith),
)

pub and_seven : (a : ℕ) → bit_and a 7 ≡ a % 8
and_seven a = omega (
  arith,
  and_unfold a 7,
  and_unfold (a / 2) 3,
  and_unfold (a / 2 / 2) 1,
  and_zero (a / 2 / 2 / 2),
)

pub and_127 : (a : ℕ) → bit_and a 127 ≡ a % 128
and_127 a = omega (
  arith,
  and_unfold a 127,
  and_unfold (a / 2) 63,
  and_unfold (a / 2 / 2) 31,
  and_unfold (a / 2 / 2 / 2) 15,
  and_seven (a / 2 / 2 / 2 / 2),
)
