-- ===== src/Coap/Names.antt =====
-- src/lwm2m/mod.rs: the identifier in an endpoint name.
use smart_garden_gateway_lwm.Prelude.{
  ◌≡◌, refl, ◌∷◌, ◌++◌, Bytes, Option, none, some, [], ap, ◌⊎◌, arith, ◌==◌, Bool-cases,
  Option-cases, inl, inr, subst,
}
use smart_garden_gateway_lwm.Text.{after_last}
use smart_garden_gateway_lwm.Text.Split.{
  IsFreeOf, IsLastPiece, after_last_free, after_last-append, after_last-IsLastPiece,
}
use smart_garden_gateway_lwm.Coap.{sgtin_from_ep}

sgtin_from_free : (text : Bytes) → IsFreeOf b':' text → sgtin_from_ep text ≡ text
unfolding sgtin_from_ep
sgtin_from_free text free = rw (after_last_free b':' text free, sgtin_from_ep) refl

sgtin_from_ep-IsFreeOf : (ep : Bytes) → IsFreeOf b':' (sgtin_from_ep ep)
unfolding sgtin_from_ep
sgtin_from_ep-IsFreeOf ep = elim (Option-cases (after_last b':' ep)) [
  | inl e ↦ rw (e, sgtin_from_ep) (subst (IsLastPiece b':' ep) e (after_last-IsLastPiece b':' ep))
  | inr (text, e) ↦
      rw (e, sgtin_from_ep) (subst (IsLastPiece b':' ep) e (after_last-IsLastPiece b':' ep))
]

after_front :
    (front text : Bytes) → IsFreeOf b':' text → sgtin_from_ep (front ++ b':' ∷ text) ≡ text
unfolding sgtin_from_ep
after_front front text free = rw (after_last-append b':' front text free, sgtin_from_ep) refl

-- What is found stands behind a separator.
abbrev IsEnd : Bytes → Option Bytes → Type 0
IsEnd ep none = Unit
IsEnd ep (some text) = (start : Bytes) × (ep ≡ start ++ b':' ∷ text)

after_last-IsEnd : (ep : Bytes) → IsEnd ep (after_last b':' ep)
unfolding after_last
after_last-IsEnd [] = tt
after_last-IsEnd (b ∷ ep) = elim (Option-cases (after_last b':' ep)) [
  | inr (text, found) ↦
      let (start, whole) = subst (IsEnd ep) found (after_last-IsEnd ep) in
      rw found (b ∷ start, ap (λ t. b ∷ t) whole)
  | inl unseen ↦ elim (Bool-cases (b == b':')) [
    | inl here ↦ let same : b ≡ b':' = ground arith in rw (unseen, here) ([], ap (λ c. c ∷ ep) same)
    | inr other ↦ rw (unseen, other) tt
  ]
]

sgtin_from_ep-end :
    (ep : Bytes)
    → (ep ≡ sgtin_from_ep ep) ⊎ ((start : Bytes) × (ep ≡ start ++ b':' ∷ sgtin_from_ep ep))
unfolding sgtin_from_ep
sgtin_from_ep-end ep = elim (Option-cases (after_last b':' ep)) [
  | inl e ↦ inl (rw (e, sgtin_from_ep) refl)
  | inr (text, e) ↦
      let (start, whole) = subst (IsEnd ep) e (after_last-IsEnd ep) in
      inr (start, rw (e, sgtin_from_ep) whole)
]

-- The identifier of an endpoint name has no colon, and it is the whole name or what stands in it
-- behind a colon. It is its own identifier, and it does not depend on what stands in front of it with
-- a colon between.
pub sgtin_from_ep_lem :
    (ep front : Bytes)
    → IsFreeOf b':' (sgtin_from_ep ep)
      × ((ep ≡ sgtin_from_ep ep) ⊎ ((start : Bytes) × (ep ≡ start ++ b':' ∷ sgtin_from_ep ep)))
      × (sgtin_from_ep (sgtin_from_ep ep) ≡ sgtin_from_ep ep)
      × (sgtin_from_ep (front ++ b':' ∷ sgtin_from_ep ep) ≡ sgtin_from_ep ep)
sgtin_from_ep_lem ep front = (
  sgtin_from_ep-IsFreeOf ep,
  sgtin_from_ep-end ep,
  sgtin_from_free (sgtin_from_ep ep) (sgtin_from_ep-IsFreeOf ep),
  after_front front (sgtin_from_ep ep) (sgtin_from_ep-IsFreeOf ep),
)
