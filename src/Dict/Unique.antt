-- ===== src/Dict/Unique.antt =====
-- A map holds a key once, so what an iteration meets is what a lookup finds.
use smart_garden_gateway_lwm.Prelude.{
  ◌≡◌, refl, inl, inr, none, some, List, [], ◌∷◌, arith, Key, Elem,
}
use smart_garden_gateway_lwm.Dict.{
  Dict, empty, map_list, map_values, find, without, replace, get, insert, remove,
}
use smart_garden_gateway_lwm.Dict.Laws.{find-replace, find-without, find-map_list}

module _ {K V : Type 0} ⦃key : Key K⦄ where
  abbrev pub Distinct : List (K × V) → Type 0
  Distinct [] = Unit
  Distinct ((k, v) ∷ l) = (find k l ≡ none) × Distinct l

  unfoldable pub IsUnique : Dict K V → Type 0
  IsUnique d = Distinct d.entries

  replace-Distinct : (k : K) (v : V) (l : List (K × V)) → Distinct l → Distinct (replace k v l)
  unfolding find replace
  replace-Distinct k v [] u = (refl, tt)
  replace-Distinct k v ((j, w) ∷ l) (fresh, u) =
      ground (arith, replace-Distinct k v l u, find-replace k j v l)

  without-Distinct : (k : K) (l : List (K × V)) → Distinct l → Distinct (without k l)
  unfolding find without
  without-Distinct k [] u = tt
  without-Distinct k ((j, w) ∷ l) (fresh, u) =
      ground (arith, without-Distinct k l u, find-without k j l)

  map_list-Distinct : (f : V → V) (l : List (K × V)) → Distinct l → Distinct (map_list f l)
  unfolding map_list
  map_list-Distinct f [] u = tt
  map_list-Distinct f ((j, w) ∷ l) (fresh, u) =
      ground (arith, map_list-Distinct f l u, find-map_list f j l)

  pub insert-IsUnique : (d : Dict K V) (k : K) (v : V) → IsUnique d → IsUnique (insert d k v)
  unfolding IsUnique insert
  insert-IsUnique d k v u = replace-Distinct k v d.entries u

  pub remove-IsUnique : (d : Dict K V) (k : K) → IsUnique d → IsUnique (remove d k)
  unfolding IsUnique remove
  remove-IsUnique d k u = without-Distinct k d.entries u

  pub map_values-IsUnique : (d : Dict K V) (f : V → V) → IsUnique d → IsUnique (map_values f d)
  unfolding IsUnique map_values
  map_values-IsUnique d f u = map_list-Distinct f d.entries u

  find-Elem : (k : K) (v : V) (l : List (K × V)) → find k l ≡ some v → Elem (k, v) l
  unfolding find
  find-Elem k v [] h = cc
  find-Elem k v ((j, w) ∷ l) h = elim (key.dec k j) [
    | yes p ↦ inl (ground arith)
    | no n ↦ inr (find-Elem k v l (ground arith))
  ]

  Elem-find : (k : K) (v : V) (l : List (K × V)) → Distinct l → Elem (k, v) l → find k l ≡ some v
  unfolding find
  Elem-find k v ((j, w) ∷ l) (fresh, u) (inl p) = ground arith
  Elem-find k v ((j, w) ∷ l) (fresh, u) (inr e) = ground (arith, Elem-find k v l u e)
  Elem-find k v [] u e = absurd e

  -- What a lookup finds, an iteration meets.
  pub Elem-of_get : (d : Dict K V) (k : K) (v : V) → get d k ≡ some v → Elem (k, v) d.entries
  unfolding get
  Elem-of_get d k v h = find-Elem k v d.entries h

  pub get_of_Elem :
      (d : Dict K V) (k : K) (v : V) → IsUnique d → Elem (k, v) d.entries → get d k ≡ some v
  unfolding IsUnique get
  get_of_Elem d k v u e = Elem-find k v d.entries u e

pub empty-IsUnique : (K V : Type 0) ⦃key : Key K⦄ → IsUnique (empty {K = K} {V = V})
unfolding IsUnique empty
empty-IsUnique K V = tt
