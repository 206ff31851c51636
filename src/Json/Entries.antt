-- ===== src/Json/Entries.antt =====
-- What `json_merge` leaves under each key.
use smart_garden_gateway_lwm.Prelude.{◌≡◌, refl, Option, none, some, Bytes, bytes_key, arith}
use smart_garden_gateway_lwm.Json.{
  Json, Fields, null, bool, uint, negint, float, text, array, object, done, field,
}
use smart_garden_gateway_lwm.Json.Merge.{find, put, entry, merge_value, merge_fields, find-put}

-- A map holds a key once, at every depth of objects in objects.
unfoldable mutual
  pub IsJson : Json → Type 0
  IsJson (object s) = IsMap s
  IsJson null = Unit
  IsJson (bool b) = Unit
  IsJson (uint n) = Unit
  IsJson (negint n) = Unit
  IsJson (float n) = Unit
  IsJson (text b) = Unit
  IsJson (array b) = Unit

  pub IsMap : Fields → Type 0
  IsMap done = Unit
  IsMap (field k v s) = (find s k ≡ none) × IsJson v × IsMap s

-- The entries `s` of an object on what the target has under the same key.
abbrev pub laid_over : Option Json → Fields → Json
laid_over (some (object t)) s = object (merge_fields t s)
laid_over other s = object s

-- What stands under a key after a merge, by what the target and what the source have there.
abbrev pub merged_entry : Option Json → Option Json → Option Json
merged_entry before none = before
merged_entry before (some (object s)) = some (laid_over before s)
merged_entry before (some v) = some v

pub merge_value-merged_entry :
    (before : Option Json) (v : Json)
    → some (merge_value (elim before [ none ↦ null | some w ↦ w ]) v) ≡ merged_entry before (some v)
unfolding merge_value
merge_value-merged_entry before null = refl
merge_value-merged_entry before (bool b) = refl
merge_value-merged_entry before (uint n) = refl
merge_value-merged_entry before (negint n) = refl
merge_value-merged_entry before (float n) = refl
merge_value-merged_entry before (text b) = refl
merge_value-merged_entry before (array b) = refl
merge_value-merged_entry none (object s) = refl
merge_value-merged_entry (some null) (object s) = refl
merge_value-merged_entry (some (bool b)) (object s) = refl
merge_value-merged_entry (some (uint n)) (object s) = refl
merge_value-merged_entry (some (negint n)) (object s) = refl
merge_value-merged_entry (some (float n)) (object s) = refl
merge_value-merged_entry (some (text b)) (object s) = refl
merge_value-merged_entry (some (array b)) (object s) = refl
merge_value-merged_entry (some (object t)) (object s) = refl

-- After a merge a key that the source has not has what the target had. A key of the source has the
-- source's value; where that is an object and the target had one under the key, it is the merge of the
-- two objects, by the same function.
pub find-merge_fields :
    (t s : Fields) (k : Bytes)
    → IsMap s
    → find (merge_fields t s) k ≡ merged_entry (find t k) (find s k)
unfolding merge_fields IsMap find
find-merge_fields t done k m = refl
find-merge_fields t (field j v s) k (fresh, _, m) = ground (
  arith,
  find-merge_fields (put t j (merge_value (entry t j) v)) s k m,
  find-put t j k (merge_value (entry t j) v),
  merge_value-merged_entry (find t j) v,
)
