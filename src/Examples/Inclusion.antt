-- ===== src/Examples/Inclusion.antt =====
-- The bootstrap registry (src/lwm2m/bootstrap.rs) at concrete devices.
use smart_garden_gateway_lwm.Prelude.{
  ◌≡◌, refl, true, none, some, [], ◌∷◌, Bytes, bytes, bytes_key, list_dec, ℕ_discrete, ite,
}
use smart_garden_gateway_lwm.Dict.{get, insert, remove, find, empty}
use smart_garden_gateway_lwm.Bootstrap.{BootstrapInner, new, token_of, begin, complete}
use smart_garden_gateway_lwm.Bootstrap.Inclusion.{
  ensure_includable_id, approve_inclusion, is_approved,
}
use smart_garden_gateway_lwm.Bootstrap.Sessions.{begin-begin, complete-begin, Completed}
use smart_garden_gateway_lwm.Bootstrap.Approval.{new-IsIndexed, approve-ensure}

opened : Unit {0}
unfolding new token_of begin get insert remove find empty list_dec bytes_key ℕ_discrete
opened = tt

abbrev valve : Bytes
valve = bytes "3034F8319C007540000186A2"

abbrev asked : BootstrapInner
asked = (begin (new 5) valve 100).1

asked_token : (begin (new 5) valve 100).0 ≡ some (5 ∷ 0 ∷ 0 ∷ 128 ∷ 0 ∷ 0 ∷ 0 ∷ 0 ∷ [], 1)
unfolding opened
asked_token = refl

begin-begin_example : begin asked valve 200 ≡ (none, asked)
begin-begin_example =
    begin-begin (new 5) valve 100 200 (5 ∷ 0 ∷ 0 ∷ 128 ∷ 0 ∷ 0 ∷ 0 ∷ 0 ∷ []) 1 asked_token

complete-begin_example :
    Completed valve 100
      (5 ∷ 0 ∷ 0 ∷ 128 ∷ 0 ∷ 0 ∷ 0 ∷ 0 ∷ [])
      (1 ∷ [])
      (complete asked (5 ∷ 0 ∷ 0 ∷ 128 ∷ 0 ∷ 0 ∷ 0 ∷ 0 ∷ []) (1 ∷ []))
complete-begin_example =
    complete-begin (new 5) valve 100 (5 ∷ 0 ∷ 0 ∷ 128 ∷ 0 ∷ 0 ∷ 0 ∷ 0 ∷ []) 1 (1 ∷ []) asked_token

approve-ensure_example :
    let (id, b') = ensure_includable_id (new 5) valve in
    (ensure_includable_id b' valve ≡ (id, b'))
    × ((approve_inclusion b' id).0 ≡ some valve)
    × (is_approved (approve_inclusion b' id).1 valve
        ≡ ite (bytes_key.dec valve valve) true (is_approved (new 5) valve))
approve-ensure_example = approve-ensure (new 5) (new-IsIndexed 5) valve valve
