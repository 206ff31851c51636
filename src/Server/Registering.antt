-- ===== src/Server/Registering.antt =====
-- src/lwm2m/server.rs: a device registers (POST /rd).
use smart_garden_gateway_lwm.Prelude.{
  ℕ, ◌+◌, ◌%◌, ◌^◌, Bool, true, false, Option, none, some, List, [], ◌∷◌, Bytes, bytes, bytes_key,
  Outcome, ok, ◌>>=◌,
}
use smart_garden_gateway_lwm.Text.{decimal}
use smart_garden_gateway_lwm.Model.{
  Instant, SocketAddr, Sender, PendingOperation, new_operation, execute, factory_reset_path,
  Registration,
}
use smart_garden_gateway_lwm.Coap.{Packet, created, bad_request, add_option, location_path}
use smart_garden_gateway_lwm.Registry.{RegistryInner, register}
use smart_garden_gateway_lwm.Registry.Persisted.{snapshot}
use smart_garden_gateway_lwm.Bootstrap.{BootstrapInner}
use smart_garden_gateway_lwm.Bootstrap.Inclusion.{is_included}
use smart_garden_gateway_lwm.Server.{parse_link_format}
use smart_garden_gateway_lwm.Server.Requests.{
  Effect, send_encrypted, dispatch, save_registry, remove_later, make_response, response_packet,
  param, lifetime_param, or_text, requested_endpoint,
}

abbrev pub or_number : Option ℕ → ℕ → ℕ
or_number none default = default
or_number (some n) default = n

-- 2.01 Created with the location of the registration.
unfoldable pub created_packet : Packet → ℕ → Packet
unfolding make_response decimal
created_packet p id =
    add_option location_path (decimal id)
      (add_option location_path (bytes "rd") (make_response p created))

-- An operation whose answer nobody reads: `tx` is a sender with no receiver.
abbrev pub factory_reset : ℕ → Sender → Instant → PendingOperation
unfolding new_operation
factory_reset op_id tx now = new_operation op_id (execute factory_reset_path none) tx now

-- `is_utf8` tells whether `str::from_utf8` accepts the body, and `op_id` is INTERNAL_OP_ID.
module _ (lossy : Bytes → Bytes) (sends : Packet → Bool) (is_utf8 : Bytes → Bool) where
  unfoldable pub registration_of : Packet → SocketAddr → Bytes → Outcome Registration
  unfolding param lifetime_param parse_link_format
  registration_of p addr endpoint = do
    (objects, versions) ←
        parse_link_format (elim (is_utf8 p.payload) [ true ↦ p.payload | false ↦ [] ])
    ok (record {
      endpoint = endpoint;
      addr = addr;
      lifetime = or_number (lifetime_param lossy sends p) 86400;
      objects = objects;
      object_versions = versions;
      lwm2m_version = or_text (param lossy sends (bytes "lwm2m") p) (bytes "1.0");
      binding_mode = or_text (param lossy sends (bytes "b") p) [];
    })

  unfoldable pub after_registration :
      BootstrapInner
      → Bytes
      → SocketAddr
      → RegistryInner
      → Instant
      → ℕ
      → ℕ
      → Sender
      → List Effect × ℕ
  unfolding is_included snapshot
  after_registration b endpoint addr r now now_unix op_id tx = elim (is_included b endpoint) [
    | false ↦ (
      dispatch addr (factory_reset op_id tx now ∷ []) ∷ remove_later addr ∷ [],
      (op_id + 1) % 2 ^ 32,
    )
    | true ↦ (save_registry (snapshot r now now_unix) ∷ [], op_id)
  ]

  unfoldable pub answer_registration :
      Packet
      → BootstrapInner
      → Bytes
      → SocketAddr
      → RegistryInner
      → ℕ
      → Instant
      → ℕ
      → ℕ
      → Sender
      → List Effect × (RegistryInner × ℕ)
  unfolding created_packet after_registration
  answer_registration p b endpoint addr r id now now_unix op_id tx =
      elim (sends (created_packet p id)) [
        | false ↦ ([], (r, op_id))
        | true ↦
            let (effects, op_id') = after_registration b endpoint addr r now now_unix op_id tx in
            (send_encrypted (created_packet p id) addr ∷ effects, (r, op_id'))
      ]

  unfoldable pub handle_registration :
      Packet
      → SocketAddr
      → RegistryInner
      → BootstrapInner
      → Instant
      → ℕ
      → ℕ
      → Sender
      → Outcome (List Effect × (RegistryInner × ℕ))
  unfolding requested_endpoint registration_of register response_packet answer_registration
  handle_registration p addr r b now now_unix op_id tx = elim (requested_endpoint lossy sends p) [
    | [] ↦
        let answer = response_packet p bad_request none in
        ok (elim (sends answer) [ true ↦ send_encrypted answer addr ∷ [] | false ↦ [] ], (r, op_id))
    | b0 ∷ name ↦ do
      g ← registration_of p addr (b0 ∷ name)
      (id, r') ← register r g now
      ok (answer_registration p b (b0 ∷ name) addr r' id now now_unix op_id tx)
  ]
