-- ===== src/Ipso/Xml.antt =====
-- src/lwm2m/ipso.rs: the definition of an object from the events of its XML document, which the crate
-- quick_xml reads.
use smart_garden_gateway_lwm.Prelude.{
  ℕ, ◌^◌, Bool, true, false, not, ◌&&◌, Option, none, some, List, [], ◌∷◌, Bytes, bytes, bytes_key,
  nat_key, if◌then◌else◌,
}
use smart_garden_gateway_lwm.Dict.{Dict, get, insert, empty}
use smart_garden_gateway_lwm.Text.{parse_uint}
use smart_garden_gateway_lwm.Text.Utf8.{from_utf8}
use smart_garden_gateway_lwm.Ipso.{
  ResourceType, integer, ResourceDef, ObjectDef, IpsoModel, same_name,
}
use smart_garden_gateway_lwm.Ipso.Names.{Letters, to_snake_case, parse_resource_type}

-- The events before the end: a tag that is opened or empty, with its readable attributes, one that is
-- closed, a text (unescaped, where that is possible), an error, and the others.
pub data XmlEvent : Type 0 where
  start : Bytes → List (Bytes × Bytes) → XmlEvent
  end : Bytes → XmlEvent
  text : Option Bytes → XmlEvent
  fault : XmlEvent
  other : XmlEvent

-- The variables of `parse_xml_str`.
pub record XmlState : Type 0 where
  pub object_id : Option ℕ
  pub object_name : Option Bytes
  pub object_urn : Option Bytes
  pub object_version : Option Bytes
  pub resources : Dict ℕ ResourceDef
  pub cur_res_id : Option ℕ
  pub cur_res_name : Option Bytes
  pub cur_res_type : Option ResourceType
  pub cur_res_multiple : Bool
  pub current_tag : Bytes
  pub in_resources : Bool

unfoldable pub xml_start : XmlState
xml_start = record {
  object_id = none;
  object_name = none;
  object_urn = none;
  object_version = none;
  resources = empty;
  cur_res_id = none;
  cur_res_name = none;
  cur_res_type = none;
  cur_res_multiple = false;
  current_tag = [];
  in_resources = false;
}

-- `from_utf8(..).unwrap_or("")`
unfoldable pub tag_text : Bytes → Bytes
unfolding from_utf8
tag_text name = elim (from_utf8 name) [ some t ↦ t | none ↦ [] ]

-- The attributes `ID`, each of which sets the identifier.
abbrev id_value : Option Bytes → Option ℕ → Option ℕ
unfolding parse_uint
id_value none id = id
id_value (some s) id = parse_uint (2 ^ 32) s

unfoldable pub read_ids : List (Bytes × Bytes) → Option ℕ → Option ℕ
unfolding id_value same_name from_utf8
read_ids [] id = id
read_ids ((key, value) ∷ attributes) id =
    read_ids attributes (if same_name key (bytes "ID") then id_value (from_utf8 value) id else id)

unfoldable pub on_start : Bytes → List (Bytes × Bytes) → XmlState → XmlState
unfolding read_ids same_name
on_start tag attributes s =
    if same_name tag (bytes "Item")
    then record s {
      cur_res_id = read_ids attributes s.cur_res_id;
      cur_res_name = none;
      cur_res_type = none;
      cur_res_multiple = false;
      current_tag = tag;
    }
    else if same_name tag (bytes "Resources")
    then record s { in_resources = true; current_tag = tag }
    else record s { current_tag = tag }

abbrev type_or_integer : Option ResourceType → ResourceType
type_or_integer none = integer
type_or_integer (some t) = t

-- The end of an item keeps a resource that has an identifier and a name. `take` empties its variable
-- also where the identifier is missing.
unfoldable pub close_item : Letters → Option ℕ → Option Bytes → XmlState → XmlState
unfolding to_snake_case
close_item letters (some id) (some name) s = record s {
  resources = insert s.resources id (record {
    name = to_snake_case letters name;
    resource_type = type_or_integer s.cur_res_type;
    multiple_instances = s.cur_res_multiple;
  });
  cur_res_name = none;
  cur_res_type = none;
  cur_res_id = none;
  current_tag = [];
}
close_item letters id name s = record s {
  cur_res_name = none;
  cur_res_type = none;
  cur_res_id = none;
  current_tag = [];
}

unfoldable pub on_end : Letters → Bytes → XmlState → XmlState
unfolding close_item same_name
on_end letters tag s =
    if same_name tag (bytes "Item")
    then close_item letters s.cur_res_id s.cur_res_name s
    else if same_name tag (bytes "Resources")
    then record s { in_resources = false; current_tag = [] }
    else record s { current_tag = [] }

abbrev is_none : Option Bytes → Bool
is_none none = true
is_none (some t) = false

-- A text, by the tag around it. The arms stand in the source's order.
unfoldable pub on_text : Bytes → XmlState → XmlState
unfolding parse_uint parse_resource_type same_name
on_text t s =
    let tag = s.current_tag in
    if same_name tag (bytes "ObjectID") && not s.in_resources
    then record s { object_id = parse_uint (2 ^ 32) t }
    else if (same_name tag (bytes "Name") && not s.in_resources) && is_none s.object_name
    then record s { object_name = some t }
    else if same_name tag (bytes "ObjectURN")
    then record s { object_urn = some t }
    else if same_name tag (bytes "ObjectVersion") && not s.in_resources
    then record s { object_version = some t }
    else if same_name tag (bytes "Name") && s.in_resources
    then record s { cur_res_name = some t }
    else if same_name tag (bytes "Type")
    then record s { cur_res_type = some (parse_resource_type t) }
    else if same_name tag (bytes "MultipleInstances") && s.in_resources
    then record s { cur_res_multiple = same_name t (bytes "Multiple") }
    else s

-- The loop up to the end of the document, which an error leaves.
unfoldable pub read_events : Letters → List XmlEvent → XmlState → Option XmlState
unfolding tag_text on_start on_end on_text
read_events letters [] s = some s
read_events letters (start name attributes ∷ events) s =
    read_events letters events (on_start (tag_text name) attributes s)
read_events letters (end name ∷ events) s =
    read_events letters events (on_end letters (tag_text name) s)
read_events letters (text none ∷ events) s = read_events letters events s
read_events letters (text (some t) ∷ events) s = read_events letters events (on_text t s)
read_events letters (fault ∷ events) s = none
read_events letters (other ∷ events) s = read_events letters events s

abbrev text_or : Option Bytes → Bytes
text_or none = []
text_or (some t) = t

-- The definition, if the document had an identifier and a name.
unfoldable pub definition_of :
    Letters → Option ℕ → Option Bytes → XmlState → Option (ℕ × (Bytes × ObjectDef))
unfolding to_snake_case
definition_of letters (some id) (some name) s = some (
  id,
  (
    text_or s.object_version,
    record {
      name = to_snake_case letters name;
      urn = text_or s.object_urn;
      resources = s.resources;
    },
  ),
)
definition_of letters id name s = none

unfoldable pub parse_xml_str : Letters → List XmlEvent → Option (ℕ × (Bytes × ObjectDef))
unfolding read_events xml_start definition_of
parse_xml_str letters events = elim (read_events letters events xml_start) [
  | none ↦ none
  | some s ↦ definition_of letters s.object_id s.object_name s
]

-- The documents of `load_dirs`, in the order in which the directories yield them: each adds its
-- definition, or is passed over.
abbrev pub versions_of : Option (Dict Bytes ObjectDef) → Dict Bytes ObjectDef
versions_of none = empty
versions_of (some versions) = versions

unfoldable pub add_definition : Option (ℕ × (Bytes × ObjectDef)) → IpsoModel → IpsoModel
add_definition none model = model
add_definition (some (id, (version, def))) model = record {
  objects = insert model.objects id (insert (versions_of (get model.objects id)) version def);
}

unfoldable pub load_documents : Letters → List (List XmlEvent) → IpsoModel → IpsoModel
unfolding parse_xml_str add_definition
load_documents letters [] model = model
load_documents letters (events ∷ documents) model =
    load_documents letters documents (add_definition (parse_xml_str letters events) model)
