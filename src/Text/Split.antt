-- ===== src/Text/Split.antt =====
-- A text that is put together from pieces with no separator in them is split into those pieces.
use smart_garden_gateway_lwm.Prelude.{
  ℕ, ◌≡◌, ◌≢◌, refl, none, some, [], ◌∷◌, ◌++◌, Bytes, arith, All, Option, Bool-cases, Option-cases,
  inl, inr, subst, ◌==◌,
}
use smart_garden_gateway_lwm.Text.{split, after_last}

-- The separator does not occur.
abbrev pub IsFreeOf : ℕ → Bytes → Type 0
IsFreeOf c text = All (λ b. b ≢ c) text

pub split_free : (c : ℕ) (text : Bytes) → IsFreeOf c text → split c text ≡ text ∷ []
unfolding split
split_free c [] free = refl
split_free c (b ∷ text) (other, free) = ground (arith, split_free c text free)

pub split-append :
    (c : ℕ) (piece rest : Bytes)
    → IsFreeOf c piece
    → split c (piece ++ c ∷ rest) ≡ piece ∷ split c rest
unfolding split
split-append c [] rest free = ground arith
split-append c (b ∷ piece) rest (other, free) = ground (arith, split-append c piece rest free)

pub after_last_free : (c : ℕ) (text : Bytes) → IsFreeOf c text → after_last c text ≡ none
unfolding after_last
after_last_free c [] free = refl
after_last_free c (b ∷ text) (other, free) = ground (arith, after_last_free c text free)

-- Only what stands after the last separator counts.
pub after_last-append :
    (c : ℕ) (front text : Bytes) → IsFreeOf c text → after_last c (front ++ c ∷ text) ≡ some text
unfolding after_last
after_last-append c [] text free = ground (arith, after_last_free c text free)
after_last-append c (b ∷ front) text free = ground (arith, after_last-append c front text free)

-- What follows the last separator has none, and with no separator there is none in the text.
abbrev pub IsLastPiece : ℕ → Bytes → Option Bytes → Type 0
IsLastPiece c text none = IsFreeOf c text
IsLastPiece c text (some piece) = IsFreeOf c piece

pub after_last-IsLastPiece : (c : ℕ) (text : Bytes) → IsLastPiece c text (after_last c text)
unfolding after_last
after_last-IsLastPiece c [] = tt
after_last-IsLastPiece c (b ∷ text) = elim (Option-cases (after_last c text)) [
  | inr (piece, found) ↦ rw found (subst (IsLastPiece c text) found (after_last-IsLastPiece c text))
  | inl unseen ↦ elim (Bool-cases (b == c)) [
    | inl here ↦
        rw (unseen, here) (subst (IsLastPiece c text) unseen (after_last-IsLastPiece c text))
    | inr other ↦
        rw (unseen, other)
          (λ e. ground arith, subst (IsLastPiece c text) unseen (after_last-IsLastPiece c text))
  ]
]
