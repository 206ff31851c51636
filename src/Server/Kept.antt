-- ===== src/Server/Kept.antt =====
-- src/lwm2m/server.rs: the handlers that change the registry keep it valid and come back.
use smart_garden_gateway_lwm.Prelude.{
  ℕ, ◌+◌, ◌^◌, ◌<◌, ◌≤◌, sym, subst, ◌≡◌, refl, arith, true, false, Option, none, some, [], ◌∷◌,
  Bytes, nat_key, bytes_key, Option-cases, Bool-cases, inl, inr, Outcome, ok, panic, Returns, ◌>>=◌,
}
use smart_garden_gateway_lwm.Dict.{get}
use smart_garden_gateway_lwm.Json.{Json}
use smart_garden_gateway_lwm.Model.{Instant, SocketAddr, addr_key}
use smart_garden_gateway_lwm.Coap.{Packet, changed, deleted}
use smart_garden_gateway_lwm.Registry.{RegistryInner}
use smart_garden_gateway_lwm.Registry.Contact.{renew_registration}
use smart_garden_gateway_lwm.Registry.Queries.{endpoint_by_addr, object_versions_by_addr}
use smart_garden_gateway_lwm.Registry.Valid.{IsValid}
use smart_garden_gateway_lwm.Registry.Kept.{
  device_at, drain_pending-IsValid, merge_device_state-IsValid, renew_registration-IsValid,
  next_id-renew_registration,
}
use smart_garden_gateway_lwm.Registry.Removal.{remove_by_addr-IsValid, next_id-remove_by_addr}
use smart_garden_gateway_lwm.Registry.Sweep.{remove_by_addr}
use smart_garden_gateway_lwm.Registry.Registering.{register-Registered, assigned_id}
use smart_garden_gateway_lwm.Server.{parse_link_format}
use smart_garden_gateway_lwm.Senml.Reports.{report_payload, report_from, report_body}
use smart_garden_gateway_lwm.Server.Requests.{
  response_packet, handle_update, handle_delete, lifetime_param, requested_endpoint,
}
use smart_garden_gateway_lwm.Server.Registering.{
  registration_of, handle_registration, answer_registration, created_packet,
}
use smart_garden_gateway_lwm.Bootstrap.{BootstrapInner}
use smart_garden_gateway_lwm.Server.Packets.{ServerEnv}

-- A run whose parts come back as stated.
pub Returns-bind :
    {A B : Type 0} {P : A → Type 0} (Q : B → Type 0) (m : Outcome A) (f : A → Outcome B)
    → Returns m P
    → ((a : A) → P a → Returns (f a) Q)
    → Returns (m >>= f) Q
Returns-bind Q (ok a) f p g = g a p
Returns-bind Q panic f p g = absurd p

-- A valid registry that assigned at most one identifier since `r`.
abbrev pub KeptFrom : RegistryInner → RegistryInner → Type 0
KeptFrom r r' = IsValid r' × (r'.next_id ≤ r.next_id + 1)

module _ (r : RegistryInner) (v : IsValid r) (addr : SocketAddr) where
  endpoint_by_addr-Returns : Returns (endpoint_by_addr r addr) (λ _. Unit)
  unfolding endpoint_by_addr
  endpoint_by_addr-Returns = elim (Option-cases (get r.by_addr addr)) [
    | inl absent ↦ rw (absent, endpoint_by_addr, Returns) tt
    | inr (id, at) ↦
        let (d, found, same) = device_at r v addr id at in
        rw (at, found, endpoint_by_addr, Returns) tt
  ]

  object_versions-Returns : Returns (object_versions_by_addr r addr) (λ _. Unit)
  unfolding object_versions_by_addr
  object_versions-Returns = elim (Option-cases (get r.by_addr addr)) [
    | inl absent ↦ rw (absent, object_versions_by_addr, Returns) tt
    | inr (id, at) ↦
        let (d, found, same) = device_at r v addr id at in
        rw (at, found, object_versions_by_addr, Returns) tt
  ]

  report_payload-Returns :
      (endpoint : Bytes) (payload : Option Json)
      → Returns (report_payload addr endpoint r payload) (λ done. KeptFrom r done.1)
  unfolding report_payload
  report_payload-Returns endpoint none = (v, omega arith)
  report_payload-Returns endpoint (some payload) =
      let (out, r', runs, v', same) = merge_device_state-IsValid r v addr payload in
      rw runs (v', omega arith)

-- The text that a registration's links are read from.
abbrev pub link_text : ServerEnv → Packet → Bytes
link_text env p = elim (env.is_utf8 p.payload) [ true ↦ p.payload | false ↦ [] ]

module _ (env : ServerEnv) (p : Packet) (addr : SocketAddr) (r : RegistryInner)
    (v : IsValid r) where
  report_from-Returns :
      (endpoint : Option Bytes)
      → Returns
          (report_from env.decode_cbor env.encode_base64 env.int_as_float env.now_unix env.ipso p
            addr r endpoint)
          (λ done. KeptFrom r done.1)
  unfolding report_from
  report_from-Returns none = (v, omega arith)
  report_from-Returns (some endpoint) =
      Returns-bind _ (object_versions_by_addr r addr) _ (object_versions-Returns r v addr)
        (λ versions _. report_payload-Returns r v addr endpoint _)

  pub report_body-Returns :
      (body : Bytes)
      → Returns
          (report_body env.decode_cbor env.encode_base64 env.int_as_float env.now_unix env.ipso p
            body addr r)
          (λ done. KeptFrom r done.1)
  unfolding report_body
  report_body-Returns [] = (v, omega arith)
  report_body-Returns (b ∷ body) =
      Returns-bind _ (endpoint_by_addr r addr) _ (endpoint_by_addr-Returns r v addr)
        (λ endpoint _. report_from-Returns endpoint)

  pub handle_update-Returns :
      Returns (handle_update env.lossy env.sends p addr r env.now) (λ done. KeptFrom r done.1)
  unfolding handle_update
  handle_update-Returns = elim (Bool-cases (env.sends (response_packet p changed none))) [
    | inr unsent ↦ rw (unsent, handle_update, Returns) (v, omega arith)
    | inl sent ↦
        let lt = lifetime_param env.lossy env.sends p in
        let v1 = renew_registration-IsValid r v addr lt env.now in
        let (ops, r', runs, v', same) =
          drain_pending-IsValid (renew_registration r addr lt env.now) v1 addr in
        rw (sent, runs, handle_update, Returns)
          (v', omega (arith, same, next_id-renew_registration r addr lt env.now))
  ]

  pub handle_delete-KeptFrom :
      KeptFrom r (handle_delete env.lossy env.sends p addr r env.now env.now_unix).1
  unfolding handle_delete
  handle_delete-KeptFrom = elim (Bool-cases (env.sends (response_packet p deleted none))) [
    | inr unsent ↦ rw (unsent, handle_delete) (v, omega arith)
    | inl sent ↦
        let removed : KeptFrom r (remove_by_addr r addr).1 =
          (remove_by_addr-IsValid r v addr, omega (arith, next_id-remove_by_addr r addr)) in
        elim (Option-cases (remove_by_addr r addr).0) [
          | inl absent ↦ rw (sent, absent, handle_delete) removed
          | inr (found, present) ↦ rw (sent, present, handle_delete) removed
        ]
  ]

  registration_of-Returns :
      (endpoint : Bytes)
      → Returns (parse_link_format (link_text env p)) (λ _. Unit)
      → Returns (registration_of env.lossy env.sends env.is_utf8 p addr endpoint) (λ _. Unit)
  unfolding registration_of
  registration_of-Returns endpoint parsed =
      Returns-bind _ (parse_link_format (link_text env p)) _ parsed (λ out _. tt)

  registry-answer_registration :
      (b : BootstrapInner) (endpoint : Bytes) (id now_unix op_id tx : ℕ) (now : Instant)
      → (answer_registration env.lossy env.sends env.is_utf8 p b endpoint addr r id now now_unix
          op_id tx).1.0
        ≡ r
  unfolding answer_registration
  registry-answer_registration b endpoint id now_unix op_id tx now =
      elim (Bool-cases (env.sends (created_packet p id))) [
        | inr unsent ↦ rw (unsent, answer_registration) refl
        | inl sent ↦ rw (sent, answer_registration) refl
      ]

module _ (env : ServerEnv) (p : Packet) (addr : SocketAddr) (r : RegistryInner)
    (v : IsValid r) where
  pub named-Returns :
      (b : BootstrapInner) (op_id tx : ℕ) (endpoint : Bytes)
      → requested_endpoint env.lossy env.sends p ≡ endpoint
      → r.next_id + 1 < 2 ^ 32
      → Returns (parse_link_format (link_text env p)) (λ _. Unit)
      → Returns
          (handle_registration env.lossy env.sends env.is_utf8 p addr r b env.now env.now_unix op_id
            tx)
          (λ done. KeptFrom r done.1.0)
  unfolding handle_registration
  named-Returns b op_id tx [] named room parsed =
      rw (named, handle_registration, Returns) (v, omega arith)
  named-Returns b op_id tx (b0 ∷ name) named room parsed =
      rw (named, handle_registration)
        (Returns-bind _ (registration_of env.lossy env.sends env.is_utf8 p addr (b0 ∷ name)) _
          (registration_of-Returns env p addr r v (b0 ∷ name) parsed)
          (λ g _.
            let (r', runs, registered) = register-Registered r g env.now v room in
            let same =
              registry-answer_registration env p addr r' registered.valid b (b0 ∷ name)
                (assigned_id r g) env.now_unix op_id tx env.now in
            rw runs (subst (KeptFrom r) (sym same) (registered.valid, registered.next_id))))
