-- ===== src/Bootstrap/Der/Search.antt =====
-- src/lwm2m/bootstrap.rs: the searches through all items, which come to an end.
use smart_garden_gateway_lwm.Prelude.{
  ℕ, zero, suc, ◌+◌, ◌-◌, ◌^◌, ◌≤◌, ◌<◌, ◌||◌, ◌≡◌, refl, ap, ◌∙◌, subst, Bool, Option, none, some,
  List, [], ◌∷◌, Bytes, ltb, ◌==◌, if◌then◌else◌, length, take, drop, Outcome, ok, panic, Returns,
  ◌>>=◌, arith, Bool-cases, inl, inr, All, length-drop,
}
use smart_garden_gateway_lwm.Bootstrap.Der.{DerItem, DerItemIter, der_item_iter, next}
use smart_garden_gateway_lwm.Bootstrap.Der.Reader.{be_value, cut_value, long_value, read_item}
use smart_garden_gateway_lwm.Bootstrap.Der.Iteration.{IsByte, Yields, next-read_item}
use smart_garden_gateway_lwm.Bootstrap.Der.Certificates.{
  find_item, find_in_items, with_tag, first_item,
}

-- The items that the reader takes off, one after another, and the first that passes a test.
abbrev pub items_after : (Bytes → List DerItem) → Option (DerItem × Bytes) → List DerItem
items_after later none = []
items_after later (some (item, rest)) = item ∷ later rest

unfoldable pub items_of : ℕ → Bytes → List DerItem
unfolding read_item
items_of zero content = []
items_of (suc fuel) content = items_after (items_of fuel) (read_item content)

abbrev pub first_that : (DerItem → Bool) → List DerItem → Option DerItem
first_that test [] = none
first_that test (item ∷ items) =
    let later = first_that test items in if test item then some item else later

pub Returns-ok :
    {A : Type 0} (m : Outcome A) (P : A → Type 0) → Returns m P → (a : A) × ((m ≡ ok a) × P a)
Returns-ok (ok a) P h = (a, (refl, h))
Returns-ok panic P h = absurd h

-- An item takes two bytes at least.
cut_value-shorter :
    (tag len : ℕ) (s : Bytes) (item : DerItem) (rest : Bytes)
    → cut_value tag len s ≡ some (item, rest)
    → length rest ≤ length s
cut_value-shorter tag len s item rest h =
    let cut : Option (DerItem × Bytes) = some ((tag, take len s), drop len s) in
    elim (Bool-cases (ltb (length s) len)) [
      | inl short ↦
          let bad : ◌≡◌ {A = Option (DerItem × Bytes)} none (some (item, rest)) =
            subst (λ b. (if b then none else cut) ≡ some (item, rest)) short h in
          absurd (cc)
      | inr enough ↦
          let good : some ((tag, take len s), drop len s) ≡ some (item, rest) =
            subst (λ b. (if b then none else cut) ≡ some (item, rest)) enough h in
          let same : drop len s ≡ rest = cc in omega (arith, length-drop len s, ap length same)
    ]

long_value-shorter :
    (tag n : ℕ) (s : Bytes) (item : DerItem) (rest : Bytes)
    → long_value tag n s ≡ some (item, rest)
    → length rest ≤ length s
unfolding long_value
long_value-shorter tag n s item rest h =
    let cut = cut_value tag (be_value 0 (take n s)) (drop n s) in
    elim (Bool-cases ((n == 0) || (ltb 4 n || ltb (length s) n))) [
      | inl bad ↦
          let no : ◌≡◌ {A = Option (DerItem × Bytes)} none (some (item, rest)) =
            subst (λ b. (if b then none else cut) ≡ some (item, rest)) bad h in
          absurd (cc)
      | inr good ↦ omega (
        arith,
        cut_value-shorter tag (be_value 0 (take n s)) (drop n s) item rest
            (subst (λ b. (if b then none else cut) ≡ some (item, rest)) good h),
        length-drop n s,
      )
    ]

read_item-shorter :
    (s : Bytes) (item : DerItem) (rest : Bytes)
    → read_item s ≡ some (item, rest)
    → length rest + 2 ≤ length s
unfolding read_item
read_item-shorter [] item rest h = absurd (cc)
read_item-shorter (t ∷ []) item rest h = absurd (cc)
read_item-shorter (t ∷ f ∷ s) item rest h = elim (Bool-cases (ltb f 128)) [
  | inl short ↦ omega (
    arith,
    cut_value-shorter t f s item rest (
        subst (λ b. (if b then cut_value t f s else long_value t (f - 128) s) ≡ some (item, rest))
          short h),
  )
  | inr long ↦ omega (
    arith,
    long_value-shorter t (f - 128) s item rest (
        subst (λ b. (if b then cut_value t f s else long_value t (f - 128) s) ≡ some (item, rest))
          long h),
  )
]

-- What a search makes of one step of the iterator.
abbrev search_step :
    ℕ → (DerItem → Bool) → ℕ → DerItemIter × Option DerItem → Outcome (Option DerItem)
search_step usize test fuel step = elim step.1 [
  | none ↦ ok none
  | some item ↦ if test item then ok (some item) else find_item usize test fuel step.0
]

module _ (usize : ℕ) (test : DerItem → Bool) (content : Bytes)
    (wide : length content + 2 ^ 32 ≤ usize) (bs : All IsByte content) where
  abbrev Searches : ℕ → ℕ → Type 0
  Searches fuel p =
      find_item usize test fuel (der_item_iter content p)
      ≡ ok (first_that test (items_of fuel (drop p content)))

  search_next :
      (fuel p : ℕ)
      → ((q : ℕ) → q ≤ length content → length content < fuel + q → Searches fuel q)
      → p ≤ length content
      → length content < suc fuel + p
      → (step : DerItemIter × Option DerItem) (r : Option (DerItem × Bytes))
      → read_item (drop p content) ≡ r
      → Yields content r step
      → search_step usize test fuel step ≡ ok (first_that test (items_after (items_of fuel) r))
  search_next fuel p later h k (items, found) none e (same, is) =
      ap (λ f. search_step usize test fuel (items, f)) is
  search_next fuel p later h k (items, found) (some (item, rest)) e (same, (is, (behind, inside))) =
      let further : length content < fuel + items.pos = omega (
        arith,
        read_item-shorter (drop p content) item rest e,
        length-drop p content,
        length-drop items.pos content,
        ap length behind,
      ) in
      let tail : find_item usize test fuel items ≡ ok (first_that test (items_of fuel rest)) =
        ap (λ c. find_item usize test fuel (der_item_iter c items.pos)) same
        ∙ later items.pos inside further
        ∙ ap (λ s. ok (first_that test (items_of fuel s))) behind in
      ap (λ f. search_step usize test fuel (items, f)) is
      ∙ elim (Bool-cases (test item)) [ inl yes_ ↦ rw yes_ refl | inr no_ ↦ rw no_ tail ]

  find_item_lem : (fuel p : ℕ) → p ≤ length content → length content < fuel + p → Searches fuel p
  unfolding find_item items_of
  find_item_lem zero p h k = absurd (omega arith)
  find_item_lem (suc fuel) p h k =
      let (step, (is, yields)) =
        Returns-ok (next usize (der_item_iter content p))
          (Yields content (read_item (drop p content)))
          (next-read_item usize content p h wide bs) in
      ap (λ m. m >>= search_step usize test fuel) is
      ∙ search_next fuel p (find_item_lem fuel) h k step (read_item (drop p content)) refl yields

-- On a machine whose `usize` is wide enough, a search through the items of any bytes comes to an end
-- without a panic, with the first item that passes the test among those that the reader takes off.
pub find_in_items-first_that :
    (usize : ℕ) (test : DerItem → Bool) (content : Bytes)
    → length content + 2 ^ 32 ≤ usize
    → All IsByte content
    → find_in_items usize test content
      ≡ ok (first_that test (items_of (suc (length content)) content))
unfolding find_in_items
find_in_items-first_that usize test content wide bs =
    find_item_lem usize test content wide bs (suc (length content)) 0 (omega arith) (omega arith)

-- The first item, where the reader finds one.
abbrev pub item_at_front : Option (DerItem × Bytes) → Option DerItem
item_at_front none = none
item_at_front (some (item, rest)) = some item

Yields-found :
    (content : Bytes) (r : Option (DerItem × Bytes)) (step : DerItemIter × Option DerItem)
    → Yields content r step
    → step.1 ≡ item_at_front r
Yields-found content none (items, found) (same, is) = is
Yields-found content (some (item, rest)) (items, found) (same, (is, _)) = is

pub first_item_lem :
    (usize tag : ℕ) (content : Bytes)
    → length content + 2 ^ 32 ≤ usize
    → All IsByte content
    → first_item usize tag content ≡ ok (with_tag tag (item_at_front (read_item content)))
unfolding first_item
first_item_lem usize tag content wide bs =
    let (step, (is, yields)) =
      Returns-ok (next usize (der_item_iter content 0)) (Yields content (read_item content))
        (next-read_item usize content 0 (omega arith) wide bs) in
    ap (λ m. m >>= λ s. ok (with_tag tag s.1)) is
    ∙ ap (λ f. ok (with_tag tag f)) (Yields-found content (read_item content) step yields)
