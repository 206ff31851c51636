-- ===== src/Senml/Payload.antt =====
-- src/lwm2m/server.rs: a state report (POST /dp) from its SenML records to the names of the object
-- model, and what the report changes. The maps of the source are sorted by their keys.
use smart_garden_gateway_lwm.Prelude.{
  ℕ, ◌==◌, Bool, false, ◌||◌, Option, none, some, List, [], ◌∷◌, ◌++◌, Bytes, bytes, bytes_key,
  nat_key, if◌then◌else◌,
}
use smart_garden_gateway_lwm.Dict.{Dict, empty, get, insert}
use smart_garden_gateway_lwm.Text.{decimal}
use smart_garden_gateway_lwm.Json.{Json, Fields, object, text, done}
use smart_garden_gateway_lwm.Json.Merge.{put}
use smart_garden_gateway_lwm.Ipso.{
  ResourceType, integer, ResourceDef, ObjectDef, IpsoModel, get_versioned,
}
use smart_garden_gateway_lwm.Senml
use smart_garden_gateway_lwm.Senml.{Cbor, CborItems, CborPairs}
use smart_garden_gateway_lwm.Senml.Values.{
  SenmlValue, str, float, bool, byte_string, int_of, negative_of, encode_single_value,
  encode_array_value,
}
use smart_garden_gateway_lwm.Server.{parse_lwm2m_path}

-- The base name, and the name and the value of the record at hand.
pub record Names : Type 0 where
  pub base_name : Bytes
  pub rel_name : Bytes
  pub value : Option SenmlValue

-- The value under one of the labels 2, 3, 4 and 8, if it has the label's type.
unfoldable pub value_of : ℕ → Cbor → Option SenmlValue → Option SenmlValue
unfolding int_of negative_of
value_of label (Senml.integer n) old = if label == 2 then some (int_of n) else old
value_of label (Senml.negative n) old = if label == 2 then some (negative_of n) else old
value_of label (Senml.float f) old = if label == 2 then some (float f) else old
value_of label (Senml.text s) old = if label == 3 then some (str s) else old
value_of label (Senml.bool b) old = if label == 4 then some (bool b) else old
value_of label (Senml.byte_string b) old = if label == 8 then some (byte_string b) else old
value_of label v old = old

abbrev named : ℕ → Cbor → Bytes → Bytes
named label (Senml.text s) old = if label == 0 then s else old
named label v old = old

abbrev based : ℕ → Cbor → Bytes → Bytes
based n (Senml.text s) old = if n == 1 then s else old
based n v old = old

-- One field of a record, by its label; the label -2 is the base name's.
unfoldable pub read_label : Cbor → Cbor → Names → Names
unfolding value_of
read_label (Senml.integer label) v s = record s {
  rel_name = named label v s.rel_name;
  value = value_of label v s.value;
}
read_label (Senml.negative n) v s = record s { base_name = based n v s.base_name }
read_label key v s = s

unfoldable pub read_labels : CborPairs → Names → Names
unfolding read_label
read_labels Senml.done s = s
read_labels (Senml.pair key v fields) s = read_labels fields (read_label key v s)

-- `RawPayload`: the values of a resource of an instance of an object, and whether they are an array.
abbrev pub Resources : Type 0
Resources = Dict ℕ (List SenmlValue × Bool)

abbrev pub RawPayload : Type 0
RawPayload = Dict ℕ (Dict ℕ Resources)

abbrev or_empty : {V : Type 0} → Option (Dict ℕ V) → Dict ℕ V
or_empty none = empty
or_empty (some d) = d

abbrev with_value : SenmlValue → Bool → Option (List SenmlValue × Bool) → List SenmlValue × Bool
with_value v inst none = (v ∷ [], inst)
with_value v inst (some (values, is_array)) = (values ++ (v ∷ []), is_array || inst)

unfoldable pub add_value : RawPayload → SenmlValue → Option (ℕ × ℕ × ℕ × Bool) → RawPayload
add_value raw v none = raw
add_value raw v (some (obj_id, inst_id, res_id, has_res_inst)) =
    let instances = or_empty (get raw obj_id) in
    let resources = or_empty (get instances inst_id) in
    insert raw obj_id (
      insert instances inst_id
        (insert resources res_id (with_value v has_res_inst (get resources res_id))))

unfoldable pub add_named : RawPayload → Bytes → Option SenmlValue → RawPayload
unfolding add_value parse_lwm2m_path
add_named raw full_path none = raw
add_named raw full_path (some v) = add_value raw v (parse_lwm2m_path full_path)

-- The base name stays for the records that follow.
unfoldable pub read_records : CborItems → Bytes → RawPayload → RawPayload
unfolding read_labels add_named
read_records Senml.nil base raw = raw
read_records (Senml.cons (Senml.map fields) records) base raw =
    let s = read_labels fields (record { base_name = base; rel_name = []; value = none }) in
    read_records records s.base_name (add_named raw (s.base_name ++ s.rel_name) s.value)
read_records (Senml.cons record_ records) base raw = read_records records base raw

-- The name of a resource, its type, and whether it is defined as an array.
unfoldable pub definition : ℕ → Option ResourceDef → Bytes × (ResourceType × Bool)
unfolding decimal
definition res_id (some r) = (r.name, (r.resource_type, r.multiple_instances))
definition res_id none = (decimal res_id, (integer, false))

-- base64's encoding and `i64 as f64`; the time stamp is the time at which a report comes in.
module _ (encode : Bytes → Bytes) (int_as_float : Json → Json) (ts : ℕ) where
  unfoldable pub value_json : List SenmlValue → ResourceType → Bool → Json
  unfolding encode_single_value encode_array_value
  value_json (v ∷ []) t false = encode_single_value encode int_as_float v t ts
  value_json values t is_array = encode_array_value encode int_as_float values t ts

  unfoldable pub resources_json : ObjectDef → List (ℕ × (List SenmlValue × Bool)) → Fields → Fields
  unfolding value_json definition
  resources_json def [] inst = inst
  resources_json def ((res_id, (values, path_is_array)) ∷ resources) inst =
      let (name, (t, def_is_array)) = definition res_id (get def.resources res_id) in
      resources_json def resources
        (put inst name (value_json values t (path_is_array || def_is_array)))

  unfoldable pub instances_json : ObjectDef → List (ℕ × Resources) → Fields → Fields
  unfolding resources_json decimal
  instances_json def [] obj = obj
  instances_json def ((inst_id, resources) ∷ instances) obj =
      instances_json def instances
        (put obj (decimal inst_id) (object (resources_json def resources.entries done)))

  -- An object that the model does not know is left out.
  unfoldable pub object_json : Option ObjectDef → Dict ℕ Resources → Fields → Fields
  unfolding instances_json
  object_json none instances payload = payload
  object_json (some def) instances payload =
      put payload def.name
        (object (instances_json def instances.entries (put done (bytes "_urn") (text def.urn))))

  unfoldable pub objects_json :
      IpsoModel → Dict ℕ Bytes → List (ℕ × Dict ℕ Resources) → Fields → Fields
  unfolding object_json get_versioned
  objects_json ipso versions [] payload = payload
  objects_json ipso versions ((obj_id, instances) ∷ raw) payload =
      objects_json ipso versions raw
        (object_json (get_versioned ipso obj_id (get versions obj_id)) instances payload)

  abbrev unless_empty : Fields → Option Json
  unless_empty done = none
  unless_empty payload = some (object payload)

  -- `build_device_payload`, on the value that the crate decodes.
  unfoldable pub build_device_payload : Option Cbor → IpsoModel → Dict ℕ Bytes → Option Json
  unfolding read_records objects_json
  build_device_payload (some (Senml.array records)) ipso versions =
      unless_empty (objects_json ipso versions (read_records records [] empty).entries done)
  build_device_payload top ipso versions = none
