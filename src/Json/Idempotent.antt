-- ===== src/Json/Idempotent.antt =====
-- To merge the same report twice is to merge it once.
use smart_garden_gateway_lwm.Prelude.{◌≡◌, sym, refl, ap, none, some, Bytes, bytes_key, arith}
use smart_garden_gateway_lwm.Json.{
  Json, Fields, null, bool, uint, negint, float, text, array, object, done, field,
}
use smart_garden_gateway_lwm.Json.Merge.{find, put, entry, merge_value, merge_fields, json_merge}
use smart_garden_gateway_lwm.Json.Entries.{
  IsJson, IsMap, merge_value-merged_entry, find-merge_fields,
}

put_same : (t : Fields) (k : Bytes) (v : Json) → find t k ≡ some v → put t k v ≡ t
unfolding find put
put_same done k v h = cc
put_same (field j w t) k v h = ground (arith, put_same t k v)

-- Every entry of the source is in the target, in a value that it does not change.
abbrev Absorbs : Fields → Fields → Type 0
Absorbs t done = Unit
Absorbs t (field k v s) = ((w : Json) × (find t k ≡ some w) × (merge_value w v ≡ w)) × Absorbs t s

merge_absorbed : (t s : Fields) → Absorbs t s → merge_fields t s ≡ t
unfolding merge_fields
merge_absorbed t done a = refl
merge_absorbed t (field k v s) ((w, at, same), a) =
    let kept : put t k (merge_value (entry t k) v) ≡ t = rw (at, entry, same) (put_same t k w at) in
    rw kept (merge_absorbed t s a)

-- The entries of the first are among those of the second, each as the function has it.
abbrev Holds : Fields → Fields → (Bytes → Json → Json) → Type 0
Holds u s f = (k : Bytes) (v : Json) → find s k ≡ some v → find u k ≡ some (f k v)

Holds-tail :
    (u s : Fields) (k : Bytes) (v : Json) (f : Bytes → Json → Json)
    → find s k ≡ none
    → Holds u (field k v s) f
    → (find u k ≡ some (f k v)) × Holds u s f
unfolding find
Holds-tail u s k v f fresh h = (h k v (ground arith), λ j w at. h j w (ground arith))

mutual
  unfolding merge_value merge_fields IsJson IsMap

  merge_self : (v : Json) → IsJson v → merge_value v v ≡ v
  merge_self (object s) m = ap object (merge_absorbed s s (Absorbs-self s s (λ k v h. h) m))
  merge_self null m = refl
  merge_self (bool b) m = refl
  merge_self (uint b) m = refl
  merge_self (negint b) m = refl
  merge_self (float b) m = refl
  merge_self (text b) m = refl
  merge_self (array b) m = refl

  Absorbs-self : (u s : Fields) → Holds u s (λ k v. v) → IsMap s → Absorbs u s
  Absorbs-self u done h m = tt
  Absorbs-self u (field k v s) h (fresh, well, m) =
      let (at, rest) = Holds-tail u s k v (λ k v. v) fresh h in
      ((v, at, merge_self v well), Absorbs-self u s rest m)

mutual
  unfolding merge_value merge_fields IsJson IsMap

  merge_twice :
      (v : Json) → IsJson v → (e : Json) → merge_value (merge_value e v) v ≡ merge_value e v
  merge_twice (object s) m (object t) = ap object (
      merge_absorbed (merge_fields t s) s (
        Absorbs-twice (merge_fields t s) t s
          (λ k v h. rw (find-merge_fields t s k m, h) (sym (merge_value-merged_entry (find t k) v)))
          m))
  merge_twice (object s) m null = merge_self (object s) m
  merge_twice (object s) m (bool b) = merge_self (object s) m
  merge_twice (object s) m (uint b) = merge_self (object s) m
  merge_twice (object s) m (negint b) = merge_self (object s) m
  merge_twice (object s) m (float b) = merge_self (object s) m
  merge_twice (object s) m (text b) = merge_self (object s) m
  merge_twice (object s) m (array b) = merge_self (object s) m
  merge_twice null m e = refl
  merge_twice (bool b) m e = refl
  merge_twice (uint b) m e = refl
  merge_twice (negint b) m e = refl
  merge_twice (float b) m e = refl
  merge_twice (text b) m e = refl
  merge_twice (array b) m e = refl

  Absorbs-twice :
      (u t s : Fields) → Holds u s (λ k v. merge_value (entry t k) v) → IsMap s → Absorbs u s
  Absorbs-twice u t done h m = tt
  Absorbs-twice u t (field k v s) h (fresh, well, m) =
      let (at, rest) = Holds-tail u s k v (λ k v. merge_value (entry t k) v) fresh h in
      ((merge_value (entry t k) v, at, merge_twice v well (entry t k)), Absorbs-twice u t s rest m)

-- A second merge of the same source changes nothing, whatever the target.
pub json_merge_twice : (t s : Json) → IsJson s → json_merge (json_merge t s) s ≡ json_merge t s
unfolding json_merge merge_value
json_merge_twice (object t) (object s) m = merge_twice (object s) m (object t)
json_merge_twice t s m = refl
