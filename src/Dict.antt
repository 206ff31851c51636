-- ===== src/Dict.antt =====
-- Rust's `HashMap`, `BTreeMap` and `HashSet` as association lists. The order of the entries stands
-- for an iteration order; other modules go by the laws of the children, and by `entries` where the
-- code iterates.
pub mod Laws
pub mod Unique
use smart_garden_gateway_lwm.Prelude.{
  ite, Bool, true, false, Option, none, some, List, [], ◌∷◌, map, Key,
}

pub record Dict {ℓ} (K V : Type ℓ) : Type ℓ where
  pub entries : List (K × V)

module _ {ℓ} {K V : Type ℓ} where
  unfoldable pub empty : Dict K V
  empty = record { entries = [] }

  abbrev pub values : Dict K V → List V
  values d = map (λ e. e.1) d.entries

  abbrev pub keys : Dict K V → List K
  keys d = map (λ e. e.0) d.entries

  unfoldable pub map_list : (V → V) → List (K × V) → List (K × V)
  map_list f [] = []
  map_list f ((k, v) ∷ l) = (k, f v) ∷ map_list f l

  -- `for v in map.values_mut() { *v = f(*v) }`
  unfoldable pub map_values : (V → V) → Dict K V → Dict K V
  unfolding map_list
  map_values f d = record { entries = map_list f d.entries }

module _ {ℓ} {K V : Type ℓ} ⦃key : Key K⦄ where
  unfoldable pub find : K → List (K × V) → Option V
  find k [] = none
  find k ((j, v) ∷ l) = ite (key.dec k j) (some v) (find k l)

  pub without : K → List (K × V) → List (K × V)
  without k [] = []
  without k ((j, v) ∷ l) = let rest = without k l in ite (key.dec k j) rest ((j, v) ∷ rest)

  -- A key that is there keeps its place.
  pub replace : K → V → List (K × V) → List (K × V)
  replace k v [] = (k, v) ∷ []
  replace k v ((j, w) ∷ l) =
      let rest = replace k v l in ite (key.dec k j) ((j, v) ∷ l) ((j, w) ∷ rest)

  unfoldable pub get : Dict K V → K → Option V
  unfolding find
  get d k = find k d.entries

  unfoldable pub insert : Dict K V → K → V → Dict K V
  unfolding replace
  insert d k v = record { entries = replace k v d.entries }

  unfoldable pub remove : Dict K V → K → Dict K V
  unfolding without
  remove d k = record { entries = without k d.entries }

  abbrev pub contains_key : Dict K V → K → Bool
  contains_key d k = elim (get d k) [ none ↦ false | some _ ↦ true ]
