-- ===== src/Bootstrap/Inclusion.antt =====
-- src/lwm2m/bootstrap.rs: identifiers of devices that ask for inclusion, the user's approvals, and the
-- devices that are included.
use smart_garden_gateway_lwm.Prelude.{
  ℕ, ◌+◌, ◌%◌, ◌^◌, Bool, Option, none, some, List, [], ◌∷◌, Bytes, bytes_key, nat_key,
}
use smart_garden_gateway_lwm.Dict.{get, insert, remove, contains_key, keys}
use smart_garden_gateway_lwm.Bootstrap.{BootstrapInner}

-- `next_includable_id += 1` on u32, as a release build computes it.
unfoldable pub ensure_includable_id : BootstrapInner → Bytes → ℕ × BootstrapInner
ensure_includable_id b endpoint = elim (get b.includable_ids endpoint) [
  | some id ↦ (id, b)
  | none ↦
      let id = b.next_includable_id in
      (
        id,
        record b {
          next_includable_id = (id + 1) % 2 ^ 32;
          includable_ids = insert b.includable_ids endpoint id;
          includable_by_id = insert b.includable_by_id id endpoint;
        },
      )
]

unfoldable pub is_approved : BootstrapInner → Bytes → Bool
is_approved b endpoint = contains_key b.approved endpoint

unfoldable pub approve_inclusion : BootstrapInner → ℕ → Option Bytes × BootstrapInner
approve_inclusion b id = elim (get b.includable_by_id id) [
  | none ↦ (none, b)
  | some endpoint ↦ (some endpoint, record b { approved = insert b.approved endpoint tt })
]

unfoldable pub consume_approval : BootstrapInner → Bytes → BootstrapInner
consume_approval b endpoint = record b { approved = remove b.approved endpoint }

unfoldable pub remove_includable_id : BootstrapInner → Bytes → BootstrapInner
remove_includable_id b endpoint = elim (get b.includable_ids endpoint) [
  | none ↦ b
  | some id ↦ record b {
    includable_ids = remove b.includable_ids endpoint;
    includable_by_id = remove b.includable_by_id id;
  }
]

unfoldable pub mark_included : BootstrapInner → Bytes → BootstrapInner
mark_included b endpoint = record b { included = insert b.included endpoint tt }

unfoldable pub is_included : BootstrapInner → Bytes → Bool
is_included b endpoint = contains_key b.included endpoint

unfoldable pub unmark_included : BootstrapInner → Bytes → BootstrapInner
unmark_included b endpoint = record b { included = remove b.included endpoint }

unfoldable pub included_list : BootstrapInner → List Bytes
included_list b = keys b.included

unfoldable pub load_included : BootstrapInner → List Bytes → BootstrapInner
load_included b [] = b
load_included b (ep ∷ endpoints) =
    load_included (record b { included = insert b.included ep tt }) endpoints
