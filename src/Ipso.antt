-- ===== src/Ipso.antt =====
-- src/lwm2m/ipso.rs: the model of objects and resources, and its queries by name and by version.
pub mod Names
pub mod Xml
pub mod Versions
use mathlib.Core.Option
use smart_garden_gateway_lwm.Prelude.{
  ℕ, zero, suc, ◌+◌, Bool, true, false, ◌||◌, Option, none, some, List, [], ◌∷◌, map, Bytes,
  bytes_key, nat_key, length, if◌then◌else◌, list_dec, ℕ_discrete,
}
use smart_garden_gateway_lwm.Dict.{Dict, get, values}

pub data ResourceType : Type 0 where
  integer float string_ boolean time opaque core_link unsigned_integer : ResourceType

pub record ResourceDef : Type 0 where
  pub name : Bytes
  pub resource_type : ResourceType
  pub multiple_instances : Bool

pub record ObjectDef : Type 0 where
  pub name : Bytes
  pub urn : Bytes
  pub resources : Dict ℕ ResourceDef

-- `IpsoModel`: the versions of each object. A hash map is iterated over in some order.
pub record IpsoModel : Type 0 where
  pub objects : Dict ℕ (Dict Bytes ObjectDef)

unfoldable pub same_name : Bytes → Bytes → Bool
unfolding list_dec
same_name a b = elim (list_dec ℕ_discrete a b) [ yes p ↦ true | no n ↦ false ]

abbrev pub first_of : List ObjectDef → Option ObjectDef
first_of [] = none
first_of (def ∷ defs) = some def

abbrev pub or_any : Option ObjectDef → List ObjectDef → Option ObjectDef
or_any (some def) defs = some def
or_any none defs = first_of defs

-- The unversioned definition, or any.
abbrev pub fallback : Dict Bytes ObjectDef → Option ObjectDef
fallback versions = or_any (get versions []) (values versions)

abbrev pub exact_or : Option ObjectDef → Option ObjectDef → Option ObjectDef
exact_or (some def) other = some def
exact_or none other = other

abbrev pub versioned : Dict Bytes ObjectDef → Option Bytes → Option ObjectDef
versioned versions none = fallback versions
versioned versions (some ver) = exact_or (get versions ver) (fallback versions)

abbrev pub versioned_in : Option (Dict Bytes ObjectDef) → Option Bytes → Option ObjectDef
versioned_in none version = none
versioned_in (some versions) version = versioned versions version

unfoldable pub get_versioned : IpsoModel → ℕ → Option Bytes → Option ObjectDef
get_versioned model object_id version = versioned_in (get model.objects object_id) version

unfoldable pub any_named : Bytes → List ObjectDef → Bool
unfolding same_name
any_named name [] = false
any_named name (def ∷ defs) = same_name def.name name || any_named name defs

unfoldable pub find_object : Bytes → List (ℕ × Dict Bytes ObjectDef) → Option ℕ
unfolding any_named
find_object name [] = none
find_object name ((id, versions) ∷ objects) =
    let later = find_object name objects in
    if any_named name (values versions) then some id else later

unfoldable pub object_id_by_name : IpsoModel → Bytes → Option ℕ
unfolding find_object
object_id_by_name model name = find_object name model.objects.entries

unfoldable pub find_resource : Bytes → List (ℕ × ResourceDef) → Option ℕ
unfolding same_name
find_resource name [] = none
find_resource name ((id, r) ∷ resources) =
    let later = find_resource name resources in if same_name r.name name then some id else later

unfoldable pub resource_in : Bytes → Option ObjectDef → Option ℕ
unfolding find_resource
resource_in name none = none
resource_in name (some def) = find_resource name def.resources.entries

unfoldable pub resource_id_by_name : IpsoModel → ℕ → Bytes → Option Bytes → Option ℕ
unfolding get_versioned resource_in
resource_id_by_name model object_id resource_name version =
    resource_in resource_name (get_versioned model object_id version)

abbrev sum_counts : List (Dict Bytes ObjectDef) → ℕ
sum_counts [] = 0
sum_counts (versions ∷ objects) = length (values versions) + sum_counts objects

unfoldable pub object_count : IpsoModel → ℕ
object_count model = sum_counts (values model.objects)
