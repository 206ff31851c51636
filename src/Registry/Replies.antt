-- ===== src/Registry/Replies.antt =====
-- What `expire_stale` of src/registry.rs answers: every operation of an expired device is told that it
-- timed out, once, and no other is.
use smart_garden_gateway_lwm.Prelude.{
  ℕ, ◌≡◌, refl, ap, ◌∙◌, sym, ◌≢◌, Bool, none, some, List, [], ◌∷◌, ◌++◌, map, nat_key, arith, inl,
  inr, All, keep_if, Bool-cases,
}
use smart_garden_gateway_lwm.Dict.{get, find, values}
use smart_garden_gateway_lwm.Dict.Laws.{get-remove}
use smart_garden_gateway_lwm.Dict.Unique.{Distinct, IsUnique, get_of_Elem}
use smart_garden_gateway_lwm.Model.{
  Instant, DeviceId, Device, is_expired, PendingOperation, Sender, LwM2mResult, failure, timeout,
}
use smart_garden_gateway_lwm.Registry.{RegistryInner}
use smart_garden_gateway_lwm.Registry.Sweep.{
  Reply, dropped_replies, drop_device, drop_all, expired_ids, expire_stale,
}
use smart_garden_gateway_lwm.Registry.Valid.{IsValid}
use smart_garden_gateway_lwm.Registry.Expiry.{HasOwnId, own_ids, All-of_Elem}

-- The devices that have expired, in the order of the iteration.
pub expired_devices : RegistryInner → ℕ → Instant → List Device
expired_devices r grace now = keep_if (λ d. is_expired d grace now) (values r.by_id)

-- The operations of devices: of each those that wait for it and then those in flight.
abbrev pub all_operations : List Device → List PendingOperation
all_operations [] = []
all_operations (d ∷ ds) = (d.pending_ops ++ values d.in_flight) ++ all_operations ds

-- What the caller of an operation is told.
abbrev pub timeout_reply : PendingOperation → Sender × LwM2mResult
timeout_reply op = (op.response_tx, failure timeout)

abbrev all_replies : List Device → List Reply
all_replies [] = []
all_replies (d ∷ ds) = dropped_replies d ++ all_replies ds

map-append : {A B : Type 0} (f : A → B) (xs ys : List A) → map f (xs ++ ys) ≡ map f xs ++ map f ys
map-append f [] ys = refl
map-append f (x ∷ xs) ys = ap (λ l. f x ∷ l) (map-append f xs ys)

all_replies-map : (ds : List Device) → all_replies ds ≡ map timeout_reply (all_operations ds)
all_replies-map [] = refl
all_replies-map (d ∷ ds) =
    ap (λ l. dropped_replies d ++ l) (all_replies-map ds)
    ∙ ap (λ l. l ++ map timeout_reply (all_operations ds))
        (sym (map-append timeout_reply d.pending_ops (values d.in_flight)))
    ∙ sym (map-append timeout_reply (d.pending_ops ++ values d.in_flight) (all_operations ds))

-- The devices of a list stand under their own identifiers, which differ.
abbrev Stored : RegistryInner → List Device → Type 0
Stored r [] = Unit
Stored r (d ∷ ds) = (get r.by_id d.id ≡ some d) × All (λ x. x.id ≢ d.id) ds × Stored r ds

Stored-drop_device :
    (r : RegistryInner) (d : Device) (ds : List Device)
    → All (λ x. x.id ≢ d.id) ds
    → Stored r ds
    → Stored (drop_device r d.id).1 ds
unfolding drop_device
Stored-drop_device r d [] apart s = tt
Stored-drop_device r d (x ∷ ds) (other, apart) (at, distinct, s) =
    (ground (arith, get-remove r.by_id d.id x.id), distinct, Stored-drop_device r d ds apart s)

report-drop_all :
    (ds : List Device) (r : RegistryInner)
    → Stored r ds
    → (drop_all r (map (λ d. d.id) ds)).0 ≡ (map (λ d. d.endpoint) ds, all_replies ds)
unfolding drop_all
report-drop_all [] r s = refl
report-drop_all (d ∷ ds) r (at, apart, s) =
    rw (report-drop_all ds (drop_device r d.id).1 (Stored-drop_device r d ds apart s))
      (unfold drop_device in rw (at, drop_device))

apart_in :
    (p : Device → Bool) (l : List (DeviceId × Device)) (j : DeviceId)
    → All HasOwnId l
    → find j l ≡ none
    → All (λ x. x.id ≢ j) (keep_if p (map (λ e. e.1) l))
unfolding find
apart_in p [] j own h = tt
apart_in p ((id, d) ∷ l) j (own, owns) h = elim (Bool-cases (p d)) [
  | inl yes_p ↦ rw yes_p (ground arith, apart_in p l j owns (ground arith))
  | inr no_p ↦ rw no_p (apart_in p l j owns (ground arith))
]

Stored-keep_if :
    (p : Device → Bool) (l : List (DeviceId × Device)) (r : RegistryInner)
    → All HasOwnId l
    → Distinct l
    → All (λ e. get r.by_id e.0 ≡ some e.1) l
    → Stored r (keep_if p (map (λ e. e.1) l))
Stored-keep_if p [] r own u at = tt
Stored-keep_if p ((id, d) ∷ l) r (own, owns) (fresh, u) (here, at) = elim (Bool-cases (p d)) [
  | inl yes_p ↦ rw yes_p (
    ap (get r.by_id) own ∙ here,
    apart_in p l d.id owns (ap (λ k. find k l) own ∙ fresh),
    Stored-keep_if p l r owns u at,
  )
  | inr no_p ↦ rw no_p (Stored-keep_if p l r owns u at)
]

-- From a valid state, `expire_stale` reports the endpoints of the expired devices, in order, and fires
-- a timeout for each of their pending operations and each in flight, and nothing else.
pub report-expire_stale :
    (r : RegistryInner) (grace : ℕ) (now : Instant)
    → IsValid r
    → (expire_stale r grace now).0 ≡ (
      map (λ d. d.endpoint) (expired_devices r grace now),
      map timeout_reply (all_operations (expired_devices r grace now)),
    )
unfolding expire_stale expired_ids expired_devices IsUnique
report-expire_stale r grace now v =
    let ds = expired_devices r grace now in
    report-drop_all (expired_devices r grace now) r (
      Stored-keep_if (λ d. is_expired d grace now) r.by_id.entries r (own_ids r v) v.unique
        (All-of_Elem r.by_id.entries (λ e m. get_of_Elem r.by_id e.0 e.1 v.unique m)))
    ∙ ap (λ l. (map (λ d. d.endpoint) ds, l)) (all_replies-map ds)
