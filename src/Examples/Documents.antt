-- ===== src/Examples/Documents.antt =====
-- JSON documents (`json_merge` of src/registry.rs) and endpoint names (src/lwm2m/mod.rs) at concrete
-- inputs.
use smart_garden_gateway_lwm.Prelude.{
  ◌⊎◌, Bytes, ◌≡◌, refl, true, bytes, bytes_key, list_dec, ℕ_discrete, ◌∷◌, ◌++◌,
}
use smart_garden_gateway_lwm.Text.Split.{IsFreeOf}
use smart_garden_gateway_lwm.Coap.{sgtin_from_ep}
use smart_garden_gateway_lwm.Coap.Names.{sgtin_from_ep_lem}
use smart_garden_gateway_lwm.Json.{Fields, uint, bool, object, done, field}
use smart_garden_gateway_lwm.Json.Merge.{json_merge, merge_value, merge_fields, find, put}
use smart_garden_gateway_lwm.Json.Entries.{IsJson, IsMap, find-merge_fields, merged_entry}
use smart_garden_gateway_lwm.Json.Idempotent.{json_merge_twice}

opened : Unit {0}
unfolding json_merge merge_value find put IsJson list_dec bytes_key ℕ_discrete
opened = tt

abbrev battery : Fields
battery = field (bytes "level") (uint 80) done

abbrev before : Fields
before = field (bytes "battery") (object battery) (field (bytes "online") (bool true) done)

abbrev fresh : Fields
fresh =
    field (bytes "battery")
      (object (field (bytes "level") (uint 75) (field (bytes "low") (bool true) done))) done

test_merge :
    json_merge (object before) (object fresh)
    ≡ object (
        field
          (bytes "battery")
          (object (field (bytes "level") (uint 75) (field (bytes "low") (bool true) done)))
          (field (bytes "online") (bool true) done))
unfolding opened
test_merge = refl

fresh-IsMap : IsMap fresh
unfolding opened
fresh-IsMap = (refl, (refl, tt, (refl, tt, tt)), tt)

find-merge_fields_example :
    find (merge_fields before fresh) (bytes "battery")
    ≡ merged_entry (find before (bytes "battery")) (find fresh (bytes "battery"))
find-merge_fields_example = find-merge_fields before fresh (bytes "battery") fresh-IsMap

json_merge_twice_example :
    json_merge (json_merge (object before) (object fresh)) (object fresh)
    ≡ json_merge (object before) (object fresh)
unfolding opened
json_merge_twice_example = json_merge_twice (object before) (object fresh) fresh-IsMap

sgtin_from_ep_example :
    IsFreeOf b':' (sgtin_from_ep (bytes "urn:dev:sg:3034"))
    × ((bytes "urn:dev:sg:3034" ≡ sgtin_from_ep (bytes "urn:dev:sg:3034"))
        ⊎ ((start : Bytes) × (bytes "urn:dev:sg:3034"
              ≡ start ++ b':' ∷ sgtin_from_ep (bytes "urn:dev:sg:3034"))))
    × (sgtin_from_ep (sgtin_from_ep (bytes "urn:dev:sg:3034"))
        ≡ sgtin_from_ep (bytes "urn:dev:sg:3034"))
    × (sgtin_from_ep (bytes "sgtin" ++ b':' ∷ sgtin_from_ep (bytes "urn:dev:sg:3034"))
        ≡ sgtin_from_ep (bytes "urn:dev:sg:3034"))
sgtin_from_ep_example = sgtin_from_ep_lem (bytes "urn:dev:sg:3034") (bytes "sgtin")
