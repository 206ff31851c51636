-- ===== src/Examples/Cbor.antt =====
-- The CBOR encoders (src/lwm2m/bootstrap.rs) at a concrete item.
use smart_garden_gateway_lwm.Prelude.{◌≡◌, some, [], ◌∷◌, ◌++◌, arith}
use smart_garden_gateway_lwm.Bootstrap.Cbor.{cbor_head, read_head, read_head-cbor_head}

read_head-cbor_head_example : read_head (cbor_head 2 70000 ++ (1 ∷ [])) ≡ some (2, (70000, 1 ∷ []))
read_head-cbor_head_example = read_head-cbor_head 2 70000 (1 ∷ []) (omega arith) (omega arith)
