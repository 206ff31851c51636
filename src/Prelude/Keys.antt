-- ===== src/Prelude/Keys.antt =====
-- Keys of hash maps, texts as their bytes, and the outcome of code that can panic.
use Prim.Native.Nat.{ℕ}
use Prim.Native.Char.{code}
use Prim.Native.String.{String}
use mathlib.Core.Path.{refl, ap₂}
use mathlib.Core.List.{List, [], ◌∷◌}
use mathlib.Core.Option.{Option, none, some}
use native.Mathlib.Decide.{ℕ_discrete}

-- A type that Rust can hash and compare.
pub record Key {ℓ} (K : Type ℓ) : Type ℓ where
  pub dec : Discrete K

instance abbrev pub nat_key : Key ℕ
nat_key = record { dec = ℕ_discrete }

module _ {ℓ} {A : Type ℓ} (dec : Discrete A) where
  unfoldable pub list_dec : Discrete (List A)
  list_dec [] [] = yes refl
  list_dec [] (y ∷ ys) = no (λ p. cc)
  list_dec (x ∷ xs) [] = no (λ p. cc)
  list_dec (x ∷ xs) (y ∷ ys) = elim (dec x y) [
    | yes p ↦ elim (list_dec xs ys) [ yes q ↦ yes (ap₂ ◌∷◌ p q) | no n ↦ no (λ q. n (cc)) ]
    | no n ↦ no (λ q. n (cc))
  ]

-- A Rust `String` or `Vec<u8>`: its bytes (UTF-8).
abbrev pub Bytes : Type 0
Bytes = List ℕ

instance unfoldable pub bytes_key : Key Bytes
unfolding list_dec
bytes_key = record { dec = list_dec ℕ_discrete }

-- The bytes of an ASCII literal.
abbrev pub bytes : String → Bytes
bytes String.[] = []
bytes (String.◌∷◌ c s) = code c ∷ bytes s

-- What a call that may panic (indexing, `unwrap`) comes back with.
pub data Outcome {ℓ} (A : Type ℓ) : Type ℓ where
  ok : A → Outcome A
  panic : Outcome A

infixl 5 ◌>>=◌ ◌>>◌
abbrev pub ◌>>=◌ {ℓ κ} : {A : Type ℓ} {B : Type κ} → Outcome A → (A → Outcome B) → Outcome B
ok a >>= f = f a
panic >>= f = panic

abbrev pub ◌>>◌ {ℓ} : {B : Type ℓ} → Outcome (Unit {0}) → Outcome B → Outcome B
m >> k = m >>= λ _. k

-- `unwrap` and `map[&key]`.
abbrev pub expect {ℓ} : {A : Type ℓ} → Option A → Outcome A
expect none = panic
expect (some a) = ok a

-- A run that comes back, with a result as stated.
abbrev pub Returns : {A : Type 0} → Outcome A → (A → Type 0) → Type 0
Returns (ok a) P = P a
Returns panic P = ⊥
