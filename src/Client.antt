-- ===== src/Client.antt =====
-- src/lwm2m/client.rs: message identifiers, the packets of commands, and the Block1 option.
pub mod Answers
pub mod Block1
pub mod BlockWrite
pub mod Dispatch
pub mod Packets
pub mod Reactions
pub mod Receiver
pub mod Retransmission
pub mod Transfer
use Prim.Native.Nat.{bit_or, bit_and}
use smart_garden_gateway_lwm.Prelude.{
  ℕ, zero, suc, ◌+◌, ◌-◌, ◌*◌, ◌/◌, ◌%◌, ◌^◌, max, Bool, true, false, Option, none, some, List, [],
  ◌∷◌, ◌++◌, Bytes, leb, if◌then◌else◌,
}
use smart_garden_gateway_lwm.Text.{split, decimal}
use smart_garden_gateway_lwm.Model.{Token, ResourcePath, LwM2mCommand, read, write, execute}
use smart_garden_gateway_lwm.Coap.{
  Packet, Method, MessageType, get_method, post, put, empty_class, request, confirmable, add_option,
  get_option, uri_path, content_format, block1, encode_content_format,
}

abbrev pub ack_timeout_ms : ℕ
ack_timeout_ms = 2000

abbrev pub max_retransmit : ℕ
max_retransmit = 3

abbrev pub block_szx : ℕ
block_szx = 5

-- `1 << (szx + 4)`
abbrev pub size_of : ℕ → ℕ
size_of szx = 2 ^ (szx + 4)

abbrev pub block_threshold : ℕ
block_threshold = size_of block_szx

-- `let mid = *counter; *counter = counter.wrapping_add(1).max(1)` on u16.
unfoldable pub next_mid : ℕ → ℕ × ℕ
next_mid counter = (counter, max ((counter + 1) % 2 ^ 16) 1)

-- `format!("{}/{}/{}", ...)`
unfoldable pub as_uri_path : ResourcePath → Bytes
unfolding decimal
as_uri_path p =
    decimal p.object_id ++ (b'/' ∷ (decimal p.instance_id ++ (b'/' ∷ decimal p.resource_id)))

abbrev pub add_segments : List Bytes → Packet → Packet
add_segments [] p = p
add_segments (s ∷ segments) p = add_segments segments (add_option uri_path s p)

unfoldable pub add_uri_path : Packet → Bytes → Packet
unfolding split
add_uri_path p path = add_segments (split b'/' path) p

-- `Packet::new()` with the type, the identifier and the token set.
abbrev pub new_packet : Method → Token → ℕ → Packet
new_packet method token mid = record {
  kind = confirmable;
  code = request method;
  message_id = mid;
  token = token;
  options = [];
  payload = [];
}

unfoldable pub build_request : LwM2mCommand → Token → ℕ → Packet
unfolding as_uri_path add_uri_path encode_content_format
build_request (read path) token mid =
    add_uri_path (new_packet get_method token mid) (as_uri_path path)
build_request (write path value format) token mid =
    record (add_option content_format (encode_content_format format)
      (add_uri_path (new_packet put token mid) (as_uri_path path))) { payload = value }
build_request (execute path none) token mid =
    add_uri_path (new_packet post token mid) (as_uri_path path)
build_request (execute path (some args)) token mid =
    record (add_uri_path (new_packet post token mid) (as_uri_path path)) { payload = args }

abbrev pub flag : Bool → ℕ
flag true = 1
flag false = 0

-- `(num << 4) | (more << 3) | szx`
abbrev pub block1_value : ℕ → Bool → ℕ → ℕ
block1_value num more szx = bit_or (bit_or (num * 16) (flag more * 8)) szx

unfoldable pub encode_block1 : ℕ → Bool → ℕ → Bytes
encode_block1 num more szx =
    let val = block1_value num more szx in
    if leb val 255
    then (val % 256) ∷ []
    else if leb val 65535
    then (val / 256 % 256) ∷ (val % 256) ∷ []
    else (val / 65536 % 256) ∷ (val / 256 % 256) ∷ (val % 256) ∷ []

-- `bytes.iter().fold(0u64, |acc, &b| (acc << 8) | b)`
unfoldable pub fold_bytes : ℕ → Bytes → ℕ
fold_bytes acc [] = acc
fold_bytes acc (b ∷ bs) = fold_bytes (bit_or (acc * 256 % 2 ^ 64) b) bs

abbrev pub szx_of : List Bytes → Option ℕ
unfolding fold_bytes
szx_of [] = none
szx_of (value ∷ values) = some (bit_and (fold_bytes 0 value) 7)

unfoldable pub block1_szx_from_response : Packet → Option ℕ
block1_szx_from_response p = szx_of (get_option block1 p)

unfoldable pub build_block_put : Bytes → Token → ℕ → Bytes → ℕ → Bytes → Packet
unfolding add_uri_path encode_content_format
build_block_put path token mid chunk format block =
    record (add_option block1 block (
      add_option content_format (encode_content_format format)
        (add_uri_path (new_packet put token mid) path))) { payload = chunk }
