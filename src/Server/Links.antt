-- ===== src/Server/Links.antt =====
-- src/lwm2m/server.rs: a link that has no path before its `>` stops the server.
use smart_garden_gateway_lwm.Prelude.{
  Bool, true, false, if◌then◌else◌, ℕ, ◌≡◌, refl, ap, ◌∙◌, List, [], ◌∷◌, ◌++◌, Bytes, ◌==◌, arith,
  Outcome, ok, panic, ◌>>=◌, Bool-cases, inl, inr,
}
use smart_garden_gateway_lwm.Dict.{Dict, empty}
use smart_garden_gateway_lwm.Text.{split, push_piece, find}
use smart_garden_gateway_lwm.Text.Trim.{
  is_continuation, onto_first, characters, is_whitespace, trim, trim_start, trim_end, keep_front,
  joined,
}
use smart_garden_gateway_lwm.Server.{
  parse_link, parse_trimmed, parse_links, parse_link_format, slice_from_one,
}

push_piece-append :
    (b : ℕ) (x : Bytes) (xs ys : List Bytes)
    → push_piece b ((x ∷ xs) ++ ys) ≡ push_piece b (x ∷ xs) ++ ys
push_piece-append b x xs ys = refl

-- There is always a piece.
split_some : (c : ℕ) (text : Bytes) → (x : Bytes) × (xs : List Bytes) × (split c text ≡ x ∷ xs)
unfolding split
split_some c [] = ([], [], refl)
split_some c (b ∷ text) =
    let (x, xs, e) = split_some c text in
    elim (Bool-cases (b == c)) [
      | inl here ↦ rw (here, split) ([], split c text, refl)
      | inr other ↦ rw (other, e, split) (b ∷ x, xs, refl)
    ]

split_append :
    (c : ℕ) (front rest : Bytes) → split c (front ++ c ∷ rest) ≡ split c front ++ split c rest
unfolding split
split_append c [] rest = ground arith
split_append c (b ∷ front) rest =
    let (x, xs, e) = split_some c front in
    elim (Bool-cases (b == c)) [
      | inl here ↦ rw (here, split) (ap (◌∷◌ []) (split_append c front rest))
      | inr other ↦ rw (other, split) (ap (push_piece b) (split_append c front rest) ∙ rw e refl)
    ]

bind_panic :
    {A B : Type 0} (m : Outcome A) (f : A → Outcome B) → ((a : A) → f a ≡ panic) → (m >>= f) ≡ panic
bind_panic (ok a) f bad = bad a
bind_panic panic f bad = refl

parse_links-append :
    (xs : List Bytes) (y : Bytes) (ys : List Bytes) (out : List Bytes × Dict ℕ Bytes)
    → ((out : List Bytes × Dict ℕ Bytes) → parse_link y out ≡ panic)
    → parse_links (xs ++ (y ∷ ys)) out ≡ panic
unfolding parse_links
parse_links-append [] y ys out bad = rw (bad out, parse_links) refl
parse_links-append (x ∷ xs) y ys out bad =
    bind_panic (parse_link x out) (λ out'. parse_links (xs ++ (y ∷ ys)) out')
      (λ out'. parse_links-append xs y ys out' bad)

-- The first character begins with the first byte.
first_character :
    (b : ℕ) (text : Bytes)
    → (c : Bytes) × (cs : List Bytes) × (characters (b ∷ text) ≡ (b ∷ c) ∷ cs)
unfolding characters
first_character b text = onto (is_continuation text) (characters text)
  where
    onto :
        (goes_on : Bool) (rest : List Bytes)
        → (c : Bytes) × (cs : List Bytes) × (onto_first goes_on (b ∷ []) rest ≡ (b ∷ c) ∷ cs)
    onto true [] = ([], [], refl)
    onto true (d ∷ cs) = (d, cs, refl)
    onto false rest = ([], rest, refl)

no_whitespace : (c : Bytes) → is_whitespace (b'>' ∷ c) ≡ false
unfolding is_whitespace
no_whitespace [] = refl
no_whitespace (x ∷ []) = refl
no_whitespace (x ∷ y ∷ []) = refl
no_whitespace (x ∷ y ∷ z ∷ c) = refl

keep_front_angle :
    (c : Bytes) (rest : List Bytes)
    → (text : Bytes) × (joined (keep_front (b'>' ∷ c) rest) ≡ b'>' ∷ text)
unfolding keep_front
keep_front_angle c [] = (c ++ [], rw (no_whitespace c, keep_front) refl)
keep_front_angle c (d ∷ rest) = (c ++ joined (d ∷ rest), refl)

trim_angle : (text : Bytes) → (rest : Bytes) × (trim (b'>' ∷ text) ≡ b'>' ∷ rest)
unfolding trim trim_start trim_end
trim_angle text =
    let (c, cs, e) = first_character b'>' text in
    let (rest, kept) = keep_front_angle c (trim_end cs) in
    (
      rest,
      ap (λ l. joined (trim_end (trim_start l))) e
          ∙ ap (λ b. joined (trim_end (if b then trim_start cs else (b'>' ∷ c) ∷ cs)))
              (no_whitespace c)
          ∙ kept,
    )

split_angle :
    (rest : Bytes)
    → (piece : Bytes) × (pieces : List Bytes) × (split b',' (b'>' ∷ rest) ≡ (b'>' ∷ piece) ∷ pieces)
unfolding split
split_angle rest = let (x, xs, e) = split_some b',' rest in (x, xs, ap (push_piece b'>') e)

parse_trimmed_angle :
    (rest : Bytes) (out : List Bytes × Dict ℕ Bytes) → parse_trimmed (b'>' ∷ rest) out ≡ panic
unfolding parse_trimmed find slice_from_one
parse_trimmed_angle rest out = refl

parse_link_angle :
    (text : Bytes) (out : List Bytes × Dict ℕ Bytes) → parse_link (b'>' ∷ text) out ≡ panic
unfolding parse_link
parse_link_angle text out =
    let (rest, e) = trim_angle text in
    ap (λ link. parse_trimmed link out) e ∙ parse_trimmed_angle rest out

-- A registration whose list of objects has a link that begins with `>` makes the server panic,
-- whatever stands before the link and behind it.
pub parse_link_format-panic :
    (front rest : Bytes) → parse_link_format (front ++ b',' ∷ b'>' ∷ rest) ≡ panic
unfolding parse_link_format
parse_link_format-panic front rest =
    let (piece, pieces, e) = split_angle rest in
    ap (λ links. parse_links links ([], empty))
      (split_append b',' front (b'>' ∷ rest) ∙ ap (◌++◌ (split b',' front)) e)
    ∙ parse_links-append (split b',' front) (b'>' ∷ piece) pieces ([], empty)
        (parse_link_angle piece)
