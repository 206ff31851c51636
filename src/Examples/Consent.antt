-- ===== src/Examples/Consent.antt =====
-- A bootstrap request (src/lwm2m/server.rs) of a device that the user has approved.
use smart_garden_gateway_lwm.Prelude.{
  ◌≡◌, refl, false, true, some, [], ◌∷◌, bytes, bytes_key, list_dec, ℕ_discrete, arith,
}
use smart_garden_gateway_lwm.Dict.{get, insert, empty, find}
use smart_garden_gateway_lwm.Text.{split, splitn, after_last}
use smart_garden_gateway_lwm.Model.{SocketAddr, v6}
use smart_garden_gateway_lwm.Coap.{
  Packet, confirmable, request, post, uri_path, uri_query, sgtin_from_ep,
}
use smart_garden_gateway_lwm.Bootstrap
use smart_garden_gateway_lwm.Bootstrap.{BootstrapInner}
use smart_garden_gateway_lwm.Bootstrap.Inclusion.{ensure_includable_id, is_approved}
use smart_garden_gateway_lwm.Server.{parse_query, collect_pairs}
use smart_garden_gateway_lwm.Server.Requests.{requested_endpoint, uri_query_text, param}
use smart_garden_gateway_lwm.Server.Inclusion.{handle_bootstrap, bootstrap_request, inclusion_step}
use smart_garden_gateway_lwm.Server.Consent.{starts, handle_bootstrap-IsConsented}

abbrev home : SocketAddr
home = v6 1 5683 0 2

abbrev wish : Packet
wish = record {
  kind = confirmable;
  code = request post;
  message_id = 3;
  token = [];
  options = (uri_path, bytes "bs") ∷ (uri_query, bytes "ep=A1") ∷ [];
  payload = [];
}

abbrev consented : BootstrapInner
consented = record (Bootstrap.new 0) { approved = insert empty (bytes "A1") tt }

one_start :
    starts
      (handle_bootstrap (λ text. text) (λ p. true) (some (bytes "coap")) wish home consented 5).0
    ≡ 1
unfolding starts handle_bootstrap bootstrap_request inclusion_step requested_endpoint uri_query_text
    param parse_query collect_pairs split splitn after_last sgtin_from_ep get insert find empty
    ensure_includable_id is_approved list_dec bytes_key ℕ_discrete Bootstrap.new
one_start = refl

handle_bootstrap_example :
    (is_approved consented (requested_endpoint (λ text. text) (λ p. true) wish) ≡ true)
    × (is_approved
          (handle_bootstrap
            (λ text. text)
            (λ p. true)
            (some (bytes "coap"))
            wish
            home
            consented
            5).1
          (requested_endpoint (λ text. text) (λ p. true) wish)
        ≡ false)
handle_bootstrap_example =
    handle_bootstrap-IsConsented (λ text. text) (λ p. true) (some (bytes "coap")) wish home
      consented 5 (λ none_starts. absurd (omega (arith, one_start, none_starts)))
