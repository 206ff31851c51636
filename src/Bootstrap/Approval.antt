-- ===== src/Bootstrap/Approval.antt =====
-- Identifiers and approvals of src/lwm2m/bootstrap.rs: an identifier stands for one endpoint, and an approval
-- goes to the endpoint that the identifier was shown for.
use smart_garden_gateway_lwm.Prelude.{
  ℕ, ◌+◌, ◌<◌, ◌^◌, ◌≡◌, true, false, none, some, Bytes, bytes_key, nat_key, arith, Option-cases,
  inl, inr, ite,
}
use smart_garden_gateway_lwm.Dict.{get}
use smart_garden_gateway_lwm.Dict.Laws.{get-insert, get-remove, get-empty}
use smart_garden_gateway_lwm.Bootstrap.{BootstrapInner, new}
use smart_garden_gateway_lwm.Bootstrap.Inclusion.{
  ensure_includable_id, is_approved, approve_inclusion, consume_approval, remove_includable_id,
  mark_included, is_included,
}

-- The identifiers and the endpoints are each other's index, and identifiers not yet given out are free.
pub record IsIndexed (b : BootstrapInner) : Type 0 where
  pub forth :
      (e : Bytes) (id : ℕ) → get b.includable_ids e ≡ some id → get b.includable_by_id id ≡ some e
  pub back :
      (id : ℕ) (e : Bytes)
      → get b.includable_by_id id ≡ some e
      → (get b.includable_ids e ≡ some id) × (id < b.next_includable_id)

pub new-IsIndexed : (seed : ℕ) → IsIndexed (new seed)
unfolding new
new-IsIndexed seed = record {
  forth = λ e id h. absurd (ground (arith, get-empty {V = ℕ} e));
  back = λ id e h. absurd (ground (arith, get-empty {V = Bytes} id));
}

module _ (b : BootstrapInner) (v : IsIndexed b) where
  free_id : get b.includable_by_id b.next_includable_id ≡ none
  free_id = elim (Option-cases (get b.includable_by_id b.next_includable_id)) [
    | inl free ↦ free
    | inr (e, taken) ↦ absurd (omega (arith, (v.back b.next_includable_id e taken).1))
  ]

  -- A request for inclusion keeps the two indices in step.
  pub ensure-IsIndexed :
      (e : Bytes) → b.next_includable_id + 1 < 2 ^ 32 → IsIndexed (ensure_includable_id b e).1
  unfolding ensure_includable_id
  ensure-IsIndexed e room = elim (Option-cases (get b.includable_ids e)) [
    | inr (id, known) ↦ rw (known, ensure_includable_id) v
    | inl absent ↦
        let next = b.next_includable_id in
        rw (absent, ensure_includable_id)
          (record {
            forth = λ x id h. ground (
              arith,
              get-insert b.includable_ids e x next,
              get-insert b.includable_by_id next id e,
              v.forth x id,
              free_id,
            );
            back = λ id x h. ground (
              arith,
              get-insert b.includable_ids e x next,
              get-insert b.includable_by_id next id e,
              v.back id x,
            );
          })
  ]

  pub remove-IsIndexed : (e : Bytes) → IsIndexed (remove_includable_id b e)
  unfolding remove_includable_id
  remove-IsIndexed e = elim (Option-cases (get b.includable_ids e)) [
    | inl absent ↦ rw (absent, remove_includable_id) v
    | inr (id, known) ↦
        rw (known, remove_includable_id)
          (record {
            forth = λ x i h. ground (
              arith,
              get-remove b.includable_ids e x,
              get-remove b.includable_by_id id i,
              v.forth x i,
              v.forth e id known,
            );
            back = λ i x h. ground (
              arith,
              get-remove b.includable_ids e x,
              get-remove b.includable_by_id id i,
              v.back i x,
              v.forth e id known,
            );
          })
  ]

  -- The identifier that a device got is stable, and approving it approves that device: the next check of the
  -- endpoint finds the approval, and the check of any other endpoint finds what it found before.
  pub approve-ensure :
      (e x : Bytes)
      → let (id, b') = ensure_includable_id b e in
        (ensure_includable_id b' e ≡ (id, b'))
        × ((approve_inclusion b' id).0 ≡ some e)
        × (is_approved (approve_inclusion b' id).1 x
            ≡ ite (bytes_key.dec x e) true (is_approved b x))
  unfolding ensure_includable_id approve_inclusion is_approved
  approve-ensure e x = elim (Option-cases (get b.includable_ids e)) [
    | inr (id, known) ↦ ground (arith, v.forth e id known, get-insert b.approved e x tt)
    | inl absent ↦
        let next = b.next_includable_id in
        ground (
          arith,
          get-insert b.includable_ids e e next,
          get-insert b.includable_by_id next next e,
          get-insert b.approved e x tt,
        )
  ]

-- The write phase uses an approval up: the endpoint is not approved any more, and the approvals of the others
-- stay.
pub is_approved-consume_approval :
    (b : BootstrapInner) (e x : Bytes)
    → is_approved (consume_approval b e) x ≡ ite (bytes_key.dec x e) false (is_approved b x)
unfolding is_approved consume_approval
is_approved-consume_approval b e x = ground (arith, get-remove b.approved e x)

pub is_included-mark_included :
    (b : BootstrapInner) (e x : Bytes)
    → is_included (mark_included b e) x ≡ ite (bytes_key.dec x e) true (is_included b x)
unfolding is_included mark_included
is_included-mark_included b e x = ground (arith, get-insert b.included e x tt)
