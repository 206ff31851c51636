-- ===== src/Json/Merge.antt =====
-- `json_merge` of src/registry.rs, on maps whose entries are read and written by key.
use smart_garden_gateway_lwm.Prelude.{◌≡◌, ite, Option, none, some, Bytes, bytes_key, arith}
use smart_garden_gateway_lwm.Json.{
  Json, Fields, null, bool, uint, negint, float, text, array, object, done, field,
}

-- `map.get(k)`
unfoldable pub find : Fields → Bytes → Option Json
find done k = none
find (field j v t) k = ite (bytes_key.dec k j) (some v) (find t k)

-- `map.insert(k, v)`: a key that is there keeps its place.
unfoldable pub put : Fields → Bytes → Json → Fields
put done k v = field k v done
put (field j w t) k v =
    let rest = put t k v in ite (bytes_key.dec k j) (field j v t) (field j w rest)

-- `*t.entry(k).or_insert(Value::Null)`
abbrev pub entry : Fields → Bytes → Json
entry t k = elim (find t k) [ none ↦ null | some v ↦ v ]

-- The body of the loop over the source's entries, and the loop. An entry that is an object is
-- merged with an object, and any other is overwritten.
unfoldable mutual
  pub merge_value : Json → Json → Json
  merge_value (object t) (object s) = object (merge_fields t s)
  merge_value e (object s) = object s
  merge_value e null = null
  merge_value e (bool b) = bool b
  merge_value e (uint n) = uint n
  merge_value e (negint n) = negint n
  merge_value e (float n) = float n
  merge_value e (text b) = text b
  merge_value e (array b) = array b

  pub merge_fields : Fields → Fields → Fields
  merge_fields t done = t
  merge_fields t (field k v s) = merge_fields (put t k (merge_value (entry t k) v)) s

-- A target or a source that is no object leaves the target as it is.
unfoldable pub json_merge : Json → Json → Json
json_merge (object t) (object s) = object (merge_fields t s)
json_merge target source = target

pub find-put :
    (t : Fields) (k j : Bytes) (v : Json)
    → find (put t k v) j ≡ ite (bytes_key.dec j k) (some v) (find t j)
unfolding find put
find-put done k j v = ground arith
find-put (field i w t) k j v = ground (arith, find-put t k j v)
