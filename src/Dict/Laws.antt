-- ===== src/Dict/Laws.antt =====
-- What a lookup finds after each operation of a map.
use mathlib.Core.Option
use smart_garden_gateway_lwm.Prelude.{
  ◌≡◌, ◌≢◌, ◌∙◌, if_pos, if_neg, refl, ite, none, some, List, [], ◌∷◌, arith, Key,
}
use smart_garden_gateway_lwm.Dict.{
  Dict, empty, map_list, map_values, find, without, replace, get, insert, remove,
}

module _ {ℓ} {K V : Type ℓ} ⦃key : Key K⦄ where
  pub find-replace :
      (k j : K) (v : V) (l : List (K × V))
      → find j (replace k v l) ≡ ite (key.dec j k) (some v) (find j l)
  unfolding find replace
  find-replace k j v [] = ground arith
  find-replace k j v ((i, w) ∷ l) = ground (arith, find-replace k j v l)

  pub find-without :
      (k j : K) (l : List (K × V)) → find j (without k l) ≡ ite (key.dec j k) none (find j l)
  unfolding find without
  find-without k j [] = ground arith
  find-without k j ((i, w) ∷ l) = ground (arith, find-without k j l)

  pub find-map_list :
      (f : V → V) (j : K) (l : List (K × V)) → find j (map_list f l) ≡ Option.map f (find j l)
  unfolding find map_list
  find-map_list f j [] = refl
  find-map_list f j ((i, w) ∷ l) = ground (arith, find-map_list f j l)

  pub get-empty : (k : K) → get (empty {V = V}) k ≡ none
  unfolding get empty
  get-empty k = refl

  pub get-insert :
      (d : Dict K V) (k j : K) (v : V) → get (insert d k v) j ≡ ite (key.dec j k) (some v) (get d j)
  unfolding get insert
  get-insert d k j v = find-replace k j v d.entries

  pub get-remove : (d : Dict K V) (k j : K) → get (remove d k) j ≡ ite (key.dec j k) none (get d j)
  unfolding get remove
  get-remove d k j = find-without k j d.entries

  pub get-map_values :
      (d : Dict K V) (f : V → V) (k : K) → get (map_values f d) k ≡ Option.map f (get d k)
  unfolding get map_values
  get-map_values d f k = find-map_list f k d.entries

-- The two cases of an insertion.
module _ {ℓ} {K V : Type ℓ} ⦃key : Key K⦄ where
  pub get-insert_same : (d : Dict K V) (k : K) (v : V) → get (insert d k v) k ≡ some v
  get-insert_same d k v = get-insert d k k v ∙ if_pos (key.dec k k) refl (some v) (get d k)

  pub get-insert_other : (d : Dict K V) (k j : K) (v : V) → j ≢ k → get (insert d k v) j ≡ get d j
  get-insert_other d k j v apart =
      get-insert d k j v ∙ if_neg (key.dec j k) apart (some v) (get d j)

pub ruleset dict_laws = (get-empty, get-insert, get-remove, get-map_values)
