-- ===== src/Examples/WritePhase.antt =====
-- The write phase of an inclusion (src/lwm2m/server.rs) with a device that acknowledges all.
use smart_garden_gateway_lwm.Prelude.{
  ◌≡◌, refl, true, false, some, [], ◌∷◌, Bytes, bytes, bytes_key, ℕ_discrete, map,
}
use smart_garden_gateway_lwm.Dict.{empty, insert, get}
use smart_garden_gateway_lwm.Bootstrap
use smart_garden_gateway_lwm.Bootstrap.{BootstrapInner}
use smart_garden_gateway_lwm.Bootstrap.Inclusion.{is_included}
use smart_garden_gateway_lwm.Server.WritePhase.{
  Radio, accepts, bootstrap_write_phase, run_inclusion,
}
use smart_garden_gateway_lwm.Server.Acknowledged.{acks, target}
use smart_garden_gateway_lwm.Server.Included.{write_targets, run_inclusion-WithKey}

abbrev radio : Radio
radio = record {
  encodes = λ pkt. true;
  sends = λ pkt attempt. true;
  reacts = λ pkt attempt. accepts;
  channel = λ token. 0;
  meanwhile = λ b. b;
  encrypted_key = some;
}

unfoldable waiting : BootstrapInner
unfolding Bootstrap.new insert bytes_key
waiting = record (Bootstrap.new 0) {
  cert_cache = insert (Bootstrap.new 0).cert_cache (bytes "ab") (7 ∷ []);
}

not_yet :
    is_included
      (bootstrap_write_phase radio (bytes "ab") (bytes "u") (1 ∷ []) waiting).1.1
      (bytes "ab")
    ≡ false
unfolding is_included bootstrap_write_phase waiting get empty bytes_key ℕ_discrete
not_yet = refl

at_last :
    is_included (run_inclusion radio 1 (bytes "ab") (bytes "u") (1 ∷ []) waiting).1 (bytes "ab")
    ≡ true
unfolding is_included run_inclusion waiting get insert empty bytes_key ℕ_discrete
at_last = refl

run_inclusion-WithKey_example :
    (cert : Bytes) × ((key : Bytes) × ((radio.encrypted_key cert ≡ some key)
        × (map target (acks (run_inclusion radio 1 (bytes "ab") (bytes "u") (1 ∷ []) waiting).0.0)
            ≡ write_targets radio (bytes "ab") (bytes "u") (1 ∷ []) key)))
run_inclusion-WithKey_example =
    run_inclusion-WithKey radio 1 (bytes "ab") (bytes "u") (1 ∷ []) waiting not_yet at_last
