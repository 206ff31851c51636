-- ===== src/Server/Consent.antt =====
-- src/lwm2m/server.rs: a device is included only with the user's approval, which is used up.
use smart_garden_gateway_lwm.Prelude.{
  ℕ, suc, ◌≡◌, ◌≢◌, refl, sym, ◌∙◌, Bool, true, false, Option, none, some, List, [], ◌∷◌, Bytes,
  bytes_key, nat_key, arith, Bool-cases, Option-cases, inl, inr,
}
use smart_garden_gateway_lwm.Dict.{get}
use smart_garden_gateway_lwm.Dict.Laws.{get-remove}
use smart_garden_gateway_lwm.Model.{Instant, SocketAddr, Token}
use smart_garden_gateway_lwm.Coap.{Packet, bad_request}
use smart_garden_gateway_lwm.Bootstrap.{BootstrapInner, begin, has_cert}
use smart_garden_gateway_lwm.Bootstrap.Inclusion.{
  ensure_includable_id, is_approved, consume_approval,
}
use smart_garden_gateway_lwm.Server.Requests.{response_packet, requested_endpoint}
use smart_garden_gateway_lwm.Server.Inclusion.{
  InclusionEffect, start_write_phase, get_certificate, send_if, ask, inclusion_step,
  bootstrap_request, handle_bootstrap,
}

-- How often the write phase starts.
unfoldable pub starts : List InclusionEffect → ℕ
starts [] = 0
starts (start_write_phase id endpoint addr uri ∷ effects) = suc (starts effects)
starts (effect ∷ effects) = starts effects

approved-ensure :
    (b : BootstrapInner) (endpoint e : Bytes)
    → is_approved (ensure_includable_id b endpoint).1 e ≡ is_approved b e
unfolding is_approved ensure_includable_id
approved-ensure b endpoint e = elim (Option-cases (get b.includable_ids endpoint)) [
  | inl fresh ↦ rw (fresh, ensure_includable_id) refl
  | inr (id, known) ↦ rw (known, ensure_includable_id) refl
]

approved-consume : (b : BootstrapInner) (e : Bytes) → is_approved (consume_approval b e) e ≡ false
unfolding is_approved consume_approval
approved-consume b e = ground (arith, get-remove b.approved e e)

module _ (lossy : Bytes → Bytes) (sends : Packet → Bool) (uri : Option Bytes) where
  starts-send_if : (p : Packet) (addr : SocketAddr) → starts (send_if lossy sends uri p addr []) ≡ 0
  unfolding starts
  starts-send_if p addr = elim (Bool-cases (sends p)) [
    | inl e ↦ rw (e, starts) refl
    | inr e ↦ rw (e, starts) refl
  ]

  starts-ask :
      (addr : SocketAddr) (out : Option (Token × ℕ) × BootstrapInner)
      → starts (ask lossy sends uri addr out).0 ≡ 0
  unfolding ask starts
  starts-ask addr (none, b) = refl
  starts-ask addr (some (token, mid), b) = starts-send_if (get_certificate token mid) addr

  -- A step starts the write phase only for a device that is approved, whose approval then is gone.
  step-IsConsented :
      (approved cached : Bool) (p : Packet) (id : ℕ) (e : Bytes) (addr : SocketAddr)
      (b : BootstrapInner) (now : Instant)
      → let out = inclusion_step lossy sends uri approved cached p id e addr b now in
        starts out.0 ≢ 0 → (approved ≡ true) × (is_approved out.1 e ≡ false)
  unfolding inclusion_step starts
  step-IsConsented true cached p id e addr b now some_start = (refl, approved-consume b e)
  step-IsConsented false true p id e addr b now some_start = absurd (some_start refl)
  step-IsConsented false false p id e addr b now some_start =
      absurd (some_start (starts-ask addr (begin b e now)))

  request-IsConsented :
      (e : Bytes) (p : Packet) (addr : SocketAddr) (b : BootstrapInner) (now : Instant)
      → let out = bootstrap_request lossy sends uri e p addr b now in
        starts out.0 ≢ 0 → (is_approved b e ≡ true) × (is_approved out.1 e ≡ false)
  unfolding bootstrap_request starts
  request-IsConsented [] p addr b now some_start =
      absurd (some_start (starts-send_if (response_packet p bad_request none) addr))
  request-IsConsented (c ∷ name) p addr b now some_start =
      let (id, b1) = ensure_includable_id b (c ∷ name) in
      let (consent, gone) =
        step-IsConsented (is_approved b1 (c ∷ name)) (has_cert b1 (c ∷ name)) p id (c ∷ name) addr
          b1 now some_start in
      (sym (approved-ensure b (c ∷ name) (c ∷ name)) ∙ consent, gone)

  -- When a bootstrap request starts the write phase, the user had approved the device that the
  -- request names, and that approval is used up: the device is not approved afterwards.
  pub handle_bootstrap-IsConsented :
      (p : Packet) (addr : SocketAddr) (b : BootstrapInner) (now : Instant)
      → let out = handle_bootstrap lossy sends uri p addr b now in
        starts out.0 ≢ 0
        → (is_approved b (requested_endpoint lossy sends p) ≡ true)
          × (is_approved out.1 (requested_endpoint lossy sends p) ≡ false)
  unfolding handle_bootstrap
  handle_bootstrap-IsConsented p addr b now some_start =
      request-IsConsented (requested_endpoint lossy sends p) p addr b now some_start
