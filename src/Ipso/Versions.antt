-- ===== src/Ipso/Versions.antt =====
-- src/lwm2m/ipso.rs: which definition a version of an object resolves to.
use smart_garden_gateway_lwm.Prelude.{ℕ, ◌≡◌, ◌≢◌, ap, ◌∙◌, Option, some, Bytes, bytes_key, nat_key}
use smart_garden_gateway_lwm.Dict.{get, insert}
use smart_garden_gateway_lwm.Dict.Laws.{get-insert_same, get-insert_other}
use smart_garden_gateway_lwm.Ipso.{
  ObjectDef, IpsoModel, get_versioned, versioned_in, exact_or, fallback,
}
use smart_garden_gateway_lwm.Ipso.Xml.{add_definition, versions_of}

-- A definition that is read from a document is what its object and version resolve to from then on,
-- also when one was there for them before. The other objects resolve as before, at every version.
pub get_versioned-add_definition :
    (model : IpsoModel) (id : ℕ) (version : Bytes) (def : ObjectDef) (other : ℕ) (v : Option Bytes)
    → other ≢ id
    → let loaded = add_definition (some (id, (version, def))) model in
      (get_versioned loaded id (some version) ≡ some def)
      × (get_versioned loaded other v ≡ get_versioned model other v)
unfolding add_definition get_versioned
get_versioned-add_definition model id version def other v apart =
    let versions = insert (versions_of (get model.objects id)) version def in
    let here : get (insert model.objects id versions) id ≡ some versions =
      get-insert_same model.objects id versions in
    let at : get versions version ≡ some def =
      get-insert_same (versions_of (get model.objects id)) version def in
    let there : get (insert model.objects id versions) other ≡ get model.objects other =
      get-insert_other model.objects id other versions apart in
    (
      ap (λ o. versioned_in o (some version)) here ∙ ap (λ d. exact_or d (fallback versions)) at,
      ap (λ o. versioned_in o v) there,
    )
