-- ===== src/Prelude/Lists.antt =====
-- Lists measured and cut by native numbers, under the library's names.
use Prim.Native.Nat.{ℕ, zero, suc, ◌+◌, ◌-◌, min}
use mathlib.Core.Path.{◌≡◌, refl, ap}
use mathlib.Core.Logic.{◌⊎◌}
use mathlib.Core.List.{List, [], ◌∷◌, ◌++◌}
use mathlib.Core.Bool.{Bool}
use mathlib.Core.Option.{Option, none, some}
use native.Mathlib.Omega.{arith}
use smart_garden_gateway_lwm.Prelude.Tests.{if◌then◌else◌}

module _ {ℓ} {A : Type ℓ} where
  abbrev pub length : List A → ℕ
  length [] = 0
  length (x ∷ xs) = suc (length xs)

  abbrev pub get_elem? : List A → ℕ → Option A
  get_elem? [] i = none
  get_elem? (x ∷ xs) zero = some x
  get_elem? (x ∷ xs) (suc i) = get_elem? xs i

  abbrev pub take : ℕ → List A → List A
  take zero xs = []
  take (suc n) [] = []
  take (suc n) (x ∷ xs) = x ∷ take n xs

  abbrev pub drop : ℕ → List A → List A
  drop zero xs = xs
  drop (suc n) [] = []
  drop (suc n) (x ∷ xs) = drop n xs

  abbrev pub replicate : ℕ → A → List A
  replicate zero a = []
  replicate (suc n) a = a ∷ replicate n a

  -- The elements that pass a Boolean test.
  abbrev pub keep_if : (A → Bool) → List A → List A
  keep_if p [] = []
  keep_if p (x ∷ xs) = let rest = keep_if p xs in if p x then x ∷ rest else rest

  pub length-append : (xs ys : List A) → length (xs ++ ys) ≡ length xs + length ys
  length-append [] ys = omega arith
  length-append (x ∷ xs) ys = omega (arith, length-append xs ys)

  pub length-take : (n : ℕ) (xs : List A) → length (take n xs) ≡ min n (length xs)
  length-take zero xs = omega arith
  length-take (suc n) [] = omega arith
  length-take (suc n) (x ∷ xs) = omega (arith, length-take n xs)

  pub length-drop : (n : ℕ) (xs : List A) → length (drop n xs) ≡ length xs - n
  length-drop zero xs = omega arith
  length-drop (suc n) [] = omega arith
  length-drop (suc n) (x ∷ xs) = omega (arith, length-drop n xs)

  pub take-append-drop : (n : ℕ) (xs : List A) → take n xs ++ drop n xs ≡ xs
  take-append-drop zero xs = refl
  take-append-drop (suc n) [] = refl
  take-append-drop (suc n) (x ∷ xs) = ap (◌∷◌ x) (take-append-drop n xs)

-- Indexing and cutting behind a prefix.
module _ {ℓ} {A : Type ℓ} where
  pub get_elem?-append :
      (xs ys : List A) (i p : ℕ) → p ≡ length xs + i → get_elem? (xs ++ ys) p ≡ get_elem? ys i
  get_elem?-append [] ys i p e = ap (get_elem? ys) (let q : p ≡ i = omega arith in q)
  get_elem?-append (x ∷ xs) ys i zero e = absurd (omega arith)
  get_elem?-append (x ∷ xs) ys i (suc p) e = get_elem?-append xs ys i p (omega arith)

  pub drop-append : (xs ys : List A) (i p : ℕ) → p ≡ length xs + i → drop p (xs ++ ys) ≡ drop i ys
  drop-append [] ys i p e = ap (λ n. drop n ys) (let q : p ≡ i = omega arith in q)
  drop-append (x ∷ xs) ys i zero e = absurd (omega arith)
  drop-append (x ∷ xs) ys i (suc p) e = drop-append xs ys i p (omega arith)

  pub drop-drop : (n i p : ℕ) (xs : List A) → p ≡ i + n → drop n (drop i xs) ≡ drop p xs
  drop-drop n zero p xs e = ap (λ m. drop m xs) (let q : n ≡ p = omega arith in q)
  drop-drop zero (suc i) zero [] e = refl
  drop-drop zero (suc i) (suc p) [] e = refl
  drop-drop (suc n) (suc i) zero [] e = refl
  drop-drop (suc n) (suc i) (suc p) [] e = refl
  drop-drop n (suc i) zero (x ∷ xs) e = absurd (omega arith)
  drop-drop n (suc i) (suc p) (x ∷ xs) e = drop-drop n i p xs (omega arith)

abbrev pub All {ℓ κ} : {A : Type ℓ} → (A → Type κ) → List A → Type κ
All P [] = Unit
All P (x ∷ xs) = P x × All P xs

-- Membership by recursion, which keeps the position.
abbrev pub Elem : {A : Type 0} → A → List A → Type 0
Elem a [] = ⊥
Elem a (x ∷ xs) = (a ≡ x) ⊎ Elem a xs
