-- ===== src/Server/Inclusion.antt =====
-- src/lwm2m/server.rs: a device asks for inclusion (POST /bs). The random delay before the request
-- for the certificate is left out.
use smart_garden_gateway_lwm.Prelude.{
  ℕ, Bool, true, false, Option, none, some, List, [], ◌∷◌, Bytes, bytes, bytes_key, take,
}
use smart_garden_gateway_lwm.Model.{Instant, SocketAddr, Token}
use smart_garden_gateway_lwm.Coap.{Packet, get_method, changed, bad_request, add_option, uri_path}
use smart_garden_gateway_lwm.Client.{new_packet}
use smart_garden_gateway_lwm.Bootstrap.{BootstrapInner, begin, has_cert}
use smart_garden_gateway_lwm.Bootstrap.Inclusion.{
  ensure_includable_id, is_approved, consume_approval,
}
use smart_garden_gateway_lwm.Server.Requests.{response_packet, requested_endpoint}

-- What the handler does besides its change of the bootstrap registry. The event has the number and
-- the name of the device, and whether its inclusion has started and is done.
pub data InclusionEffect : Type 0 where
  send_includable : ℕ → Bytes → Bool → Bool → InclusionEffect
  send_plain : Packet → SocketAddr → InclusionEffect
  start_write_phase : ℕ → Bytes → SocketAddr → Bytes → InclusionEffect

-- The request for the security object: the first four bytes of the token, and the path 0/0.
unfoldable pub get_certificate : Token → ℕ → Packet
get_certificate token mid =
    add_option uri_path (bytes "0")
      (add_option uri_path (bytes "0") (new_packet get_method (take 4 token) mid))

abbrev pub start_if_configured : Option Bytes → ℕ → Bytes → SocketAddr → List InclusionEffect
start_if_configured none id endpoint addr = []
start_if_configured (some uri) id endpoint addr = start_write_phase id endpoint addr uri ∷ []

-- `sends` tells whether a packet is encoded and sent, `server_uri` is the configured address.
module _ (lossy : Bytes → Bytes) (sends : Packet → Bool) (server_uri : Option Bytes) where
  abbrev pub send_if : Packet → SocketAddr → List InclusionEffect → List InclusionEffect
  send_if packet addr rest = elim (sends packet) [
    | true ↦ send_plain packet addr ∷ rest
    | false ↦ []
  ]

  unfoldable pub ask :
      SocketAddr → Option (Token × ℕ) × BootstrapInner → List InclusionEffect × BootstrapInner
  unfolding get_certificate
  ask addr (none, b) = ([], b)
  ask addr (some (token, mid), b) = (send_if (get_certificate token mid) addr [], b)

  -- The cases for a device that is approved, or else has a certificate, or has none.
  unfoldable pub inclusion_step :
      Bool
      → Bool
      → Packet
      → ℕ
      → Bytes
      → SocketAddr
      → BootstrapInner
      → Instant
      → List InclusionEffect × BootstrapInner
  unfolding ask consume_approval begin response_packet
  inclusion_step true cached p id endpoint addr b now = (
    send_if (response_packet p changed none) addr (start_if_configured server_uri id endpoint addr),
    consume_approval b endpoint,
  )
  inclusion_step false true p id endpoint addr b now = ([], b)
  inclusion_step false false p id endpoint addr b now = ask addr (begin b endpoint now)

  unfoldable pub bootstrap_request :
      Bytes → Packet → SocketAddr → BootstrapInner → Instant → List InclusionEffect × BootstrapInner
  unfolding inclusion_step ensure_includable_id is_approved has_cert
  bootstrap_request [] p addr b now = (send_if (response_packet p bad_request none) addr [], b)
  bootstrap_request (c ∷ name) p addr b now =
      let (id, b1) = ensure_includable_id b (c ∷ name) in
      let (effects, b2) =
        inclusion_step (is_approved b1 (c ∷ name)) (has_cert b1 (c ∷ name)) p id (c ∷ name) addr b1
          now in
      (send_includable id (c ∷ name) false false ∷ effects, b2)

  unfoldable pub handle_bootstrap :
      Packet → SocketAddr → BootstrapInner → Instant → List InclusionEffect × BootstrapInner
  unfolding bootstrap_request requested_endpoint
  handle_bootstrap p addr b now = bootstrap_request (requested_endpoint lossy sends p) p addr b now
