-- ===== src/Examples/Client.antt =====
-- The CoAP client (src/lwm2m/client.rs) at concrete inputs.
use smart_garden_gateway_lwm.Prelude.{
  ltb, ℕ, ◌+◌, ◌*◌, ◌%◌, ◌-◌, ◌^◌, ◌≡◌, ◌≢◌, refl, true, Option, some, [], ◌∷◌, map, Bytes, bytes,
  bytes_key, arith, ◌==◌, if◌then◌else◌, replicate, Returns,
}
use smart_garden_gateway_lwm.Dict.{get, empty}
use smart_garden_gateway_lwm.Text.{parse_uint}
use smart_garden_gateway_lwm.Model.{SocketAddr, v6, Token, ping_path, read}
use smart_garden_gateway_lwm.Coap.{
  Packet, response, continue, changed, acknowledgement, get_option, uri_path, block1,
}
use smart_garden_gateway_lwm.Registry.{new}
use smart_garden_gateway_lwm.Registry.Valid.{new-IsValid}
use smart_garden_gateway_lwm.Client.{next_mid, build_request, fold_bytes, encode_block1}
use smart_garden_gateway_lwm.Client.Block1.{next_mid_lem, fold_bytes-encode_block1}
use smart_garden_gateway_lwm.Client.Packets.{get_uri_path-build_request}
use smart_garden_gateway_lwm.Client.BlockWrite.{
  Event, silence, answered, BlockOp, dispatch_block_write,
}
use smart_garden_gateway_lwm.Client.Receiver.{receive}
use smart_garden_gateway_lwm.Client.Transfer.{IsSound, waiting, dispatch_block_write-IsSound}
use smart_garden_gateway_lwm.Client.Answers.{IsAnswered, dispatch_block_write-IsAnswered}
use smart_garden_gateway_lwm.Client.Dispatch.{send_task}
use smart_garden_gateway_lwm.Client.Retransmission.{IsDone, send_task-IsDone}

abbrev token : Token
token = 7 ∷ 0 ∷ 0 ∷ 0 ∷ 0 ∷ 0 ∷ 0 ∷ 0 ∷ []

abbrev device : SocketAddr
device = v6 1 5683 0 2

abbrev image : BlockOp
image = record {
  addr = device;
  token = token;
  path = bytes "5/0/0";
  payload = replicate 600 9;
  content_format = 42;
  response_tx = 1;
}

-- The device wants blocks of 64 bytes.
abbrev reply_continue : Packet
reply_continue = record {
  kind = acknowledgement;
  code = response continue;
  message_id = 1;
  token = token;
  options = (block1, 10 ∷ []) ∷ [];
  payload = [];
}

abbrev reply_changed : Packet
reply_changed = record reply_continue { code = response changed; options = [] }

-- The first transmission is lost, and the last of three blocks is the second transmission after that.
abbrev events : ℕ → Event
events i =
    if i == 0 then silence else if i == 3 then answered reply_changed else answered reply_continue

abbrev encode : Packet → Option Bytes
encode p = some p.payload

next_mid_example :
    ((next_mid 65535).0 ≡ 65535)
    × (((next_mid 65535).1 ≢ 0) × ((next_mid 65535).1 ≡ 65535 % (2 ^ 16 - 1) + 1))
next_mid_example = next_mid_lem 65535 (omega arith)

fold_bytes-encode_block1_example : fold_bytes 0 (encode_block1 5000 true 2) ≡ 5000 * 16 + 1 * 8 + 2
fold_bytes-encode_block1_example = fold_bytes-encode_block1 5000 2 true (omega arith) (omega arith)

get_uri_path-build_request_example :
    map (parse_uint (2 ^ 16)) (get_option uri_path (build_request (read ping_path) token 9))
    ≡ some 1 ∷ some 1 ∷ some 8 ∷ []
get_uri_path-build_request_example =
    get_uri_path-build_request (read ping_path) token 9 (omega arith) (omega arith) (omega arith)

-- The first packet without an acknowledgement is lost.
dispatch_block_write-IsSound_example :
    IsSound image
      (receive
        (dispatch_block_write image events encode 600 1 (some 2) empty).0
        (waiting (ltb 0))).device
dispatch_block_write-IsSound_example =
    dispatch_block_write-IsSound image events encode 600 1 (some 2) empty (ltb 0) (omega arith)

dispatch_block_write-IsAnswered_example :
    IsAnswered image (dispatch_block_write image events encode 600 1 (some 2) empty)
unfolding get empty
dispatch_block_write-IsAnswered_example =
    dispatch_block_write-IsAnswered image events encode 600 1 (some 2) empty (omega arith)
      (omega arith) (λ e. absurd (omega (arith, e))) refl

send_task-IsDone_example :
    Returns
      (send_task reply_changed token device (λ i. true) (λ i r. r) 0 new)
      (IsDone device token 3 2000)
send_task-IsDone_example =
    send_task-IsDone reply_changed token device (λ i. true) (λ i r. r) 0 (λ i. refl) (λ i r v. v)
      new new-IsValid
