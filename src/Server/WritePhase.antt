-- ===== src/Server/WritePhase.antt =====
-- src/lwm2m/server.rs: the write phase of an inclusion, and what follows it.
use smart_garden_gateway_lwm.Prelude.{
  ℕ, zero, suc, ◌+◌, ◌*◌, min, Bool, true, false, Option, none, some, List, [], ◌∷◌, ◌++◌, Bytes,
  bytes, take,
}
use smart_garden_gateway_lwm.Model.{Token, Sender}
use smart_garden_gateway_lwm.Coap.{
  Packet, delete, put, post, add_option, uri_path, content_format, encode_content_format,
}
use smart_garden_gateway_lwm.Client.{new_packet, add_segments}
use smart_garden_gateway_lwm.Bootstrap.{
  BootstrapInner, alloc_inner, get_cert, register_write_ack, cancel_write_ack,
}
use smart_garden_gateway_lwm.Bootstrap.Objects.{encode_server_object, encode_security_object}
use smart_garden_gateway_lwm.Bootstrap.Inclusion.{
  remove_includable_id, mark_included, included_list,
}

-- What ends the wait after a transmission: the acknowledgement, a reset (or the loss of the channel),
-- or the delay.
pub data Reaction : Type 0 where
  accepts refuses keeps_silent : Reaction

-- Whether a packet can be encoded and is sent, how the device reacts to each transmission of it, the channel
-- for a token, what other tasks change meanwhile, and the network key encrypted for the public key in
-- a device's certificate (`parse_device_pubkey` and `encrypt_network_key`).
pub record Radio : Type 0 where
  pub encodes : Packet → Bool
  pub sends : Packet → ℕ → Bool
  pub reacts : Packet → ℕ → Reaction
  pub channel : Token → Sender
  pub meanwhile : BootstrapInner → BootstrapInner
  pub encrypted_key : Bytes → Option Bytes

pub data WriteAction : Type 0 where
  transmit : Packet → ℕ → WriteAction
  acknowledged : Packet → WriteAction

pub data StepEnd : Type 0 where
  step_ok step_failed step_exhausted : StepEnd

abbrev pub on_reaction :
    Packet → ℕ → List WriteAction × StepEnd → Reaction → List WriteAction × StepEnd
on_reaction pkt delay later accepts = (transmit pkt delay ∷ acknowledged pkt ∷ [], step_ok)
on_reaction pkt delay later refuses = (transmit pkt delay ∷ [], step_failed)
on_reaction pkt delay later keeps_silent = (transmit pkt delay ∷ later.0, later.1)

abbrev pub unless_sent : Bool → List WriteAction × StepEnd → List WriteAction × StepEnd
unless_sent true result = result
unless_sent false result = ([], step_failed)

-- The loop over the attempts, the delay in seconds.
unfoldable pub send_attempts : Radio → Packet → ℕ → ℕ → ℕ → List WriteAction × StepEnd
send_attempts radio pkt zero attempt delay = ([], step_exhausted)
send_attempts radio pkt (suc left) attempt delay =
    let later = send_attempts radio pkt left (attempt + 1) (min (delay * 2) 32) in
    unless_sent (radio.sends pkt attempt) (on_reaction pkt delay later (radio.reacts pkt attempt))

abbrev pub max_write_retransmit : ℕ
max_write_retransmit = 4

abbrev pub ack_timeout_secs : ℕ
ack_timeout_secs = 2

abbrev after_end : Token → BootstrapInner → StepEnd → BootstrapInner
after_end token b step_exhausted = cancel_write_ack b token
after_end token b step_ok = b
after_end token b step_failed = b

unfoldable pub send_con_write_step :
    Radio → Packet → Token → BootstrapInner → (List WriteAction × StepEnd) × BootstrapInner
unfolding send_attempts register_write_ack cancel_write_ack
send_con_write_step radio pkt token b =
    let sent = send_attempts radio pkt (max_write_retransmit + 1) 0 ack_timeout_secs in
    (
      sent,
      after_end token (radio.meanwhile (register_write_ack b token (radio.channel token))) sent.1,
    )

unfoldable pub build_delete : ℕ → Token → List Bytes → Packet
build_delete mid token path = add_segments path (new_packet delete token mid)

unfoldable pub build_put : ℕ → Token → List Bytes → ℕ → Bytes → Packet
unfolding encode_content_format
build_put mid token path cf payload =
    record (add_option content_format (encode_content_format cf)
      (add_segments path (new_packet put token mid))) { payload = payload }

unfoldable pub build_post_bs : ℕ → Token → Packet
build_post_bs mid token = add_option uri_path (bytes "bs") (new_packet post token mid)

-- The actions so far, whether all went well, and the registry.
abbrev pub Phase : Type 0
Phase = List WriteAction × (Bool × BootstrapInner)

abbrev pub is_ok : StepEnd → Bool
is_ok step_ok = true
is_ok step_failed = false
is_ok step_exhausted = false

abbrev pub step_phase : (List WriteAction × StepEnd) × BootstrapInner → Phase
step_phase ((actions, end), b) = (actions, (is_ok end, b))

unfoldable pub send_encoded : Radio → Packet → Token → BootstrapInner → Bool → Phase
unfolding send_con_write_step
send_encoded radio pkt token b false = ([], (false, b))
send_encoded radio pkt token b true = step_phase (send_con_write_step radio pkt token b)

-- A step with a fresh token, of which the packet has the first four bytes.
unfoldable pub write_step : Radio → (ℕ → Token → Packet) → BootstrapInner → Phase
unfolding alloc_inner send_encoded
write_step radio make b =
    let ((token, mid), b') = alloc_inner b in
    let pkt = make mid (take 4 token) in send_encoded radio pkt token b' (radio.encodes pkt)

-- `?`: the next step follows only on success.
abbrev pub and_next : Phase → (BootstrapInner → Phase) → Phase
and_next (actions, (true, b)) next = let r = next b in (actions ++ r.0, r.1)
and_next (actions, (false, b)) next = (actions, (false, b))

abbrev pub senml_cbor : ℕ
senml_cbor = 112

unfoldable pub put_server : ℕ → Token → Packet
unfolding build_put encode_server_object
put_server mid token =
    build_put mid token (bytes "1" ∷ bytes "1" ∷ []) senml_cbor encode_server_object

unfoldable pub put_security : Bytes → Bytes → Bytes → ℕ → Token → Packet
unfolding build_put encode_security_object
put_security server_uri server_pubkey key mid token =
    build_put mid token (bytes "0" ∷ bytes "1" ∷ []) senml_cbor
      (encode_security_object server_uri server_pubkey key)

-- The fourth step, from the device's certificate in the cache and the encrypted key.
unfoldable pub with_key : Radio → Bytes → Bytes → BootstrapInner → Option Bytes → Phase
unfolding put_security write_step
with_key radio server_uri server_pubkey b none = ([], (false, b))
with_key radio server_uri server_pubkey b (some key) =
    write_step radio (put_security server_uri server_pubkey key) b

abbrev pub key_of : Radio → Option Bytes → Option Bytes
key_of radio none = none
key_of radio (some cert) = radio.encrypted_key cert

unfoldable pub security_step : Radio → Bytes → Bytes → Bytes → BootstrapInner → Phase
unfolding with_key get_cert
security_step radio endpoint server_uri server_pubkey b =
    with_key radio server_uri server_pubkey b (key_of radio (get_cert b endpoint))

unfoldable pub bootstrap_write_phase : Radio → Bytes → Bytes → Bytes → BootstrapInner → Phase
unfolding write_step build_delete put_server security_step build_post_bs
bootstrap_write_phase radio endpoint server_uri server_pubkey b =
    and_next (write_step radio (λ mid token. build_delete mid token (bytes "1" ∷ [])) b) (λ b.
      and_next (write_step radio put_server b) (λ b.
        and_next (write_step radio (λ mid token. build_delete mid token (bytes "0" ∷ [])) b) (λ b.
          and_next (security_step radio endpoint server_uri server_pubkey b)
            (λ b. write_step radio build_post_bs b))))

-- What the task of an inclusion reports.
pub data Report : Type 0 where
  includable : ℕ → Bytes → Bool → Bool → Report
  connected : Bytes → Report
  save_included : List Bytes → Report

-- The end of the task: the device is included if the phase went well.
unfoldable pub finish_inclusion : ℕ → Bytes → Bool × BootstrapInner → List Report × BootstrapInner
unfolding remove_includable_id mark_included included_list
finish_inclusion id endpoint (false, b) = ([], remove_includable_id b endpoint)
finish_inclusion id endpoint (true, b) =
    let b' = mark_included (remove_includable_id b endpoint) endpoint in
    (
      connected endpoint ∷ includable id endpoint true true ∷ save_included (included_list b') ∷ [],
      b',
    )

unfoldable pub run_inclusion :
    Radio
    → ℕ
    → Bytes
    → Bytes
    → Bytes
    → BootstrapInner
    → (List WriteAction × List Report) × BootstrapInner
unfolding bootstrap_write_phase finish_inclusion
run_inclusion radio id endpoint server_uri server_pubkey b =
    let phase = bootstrap_write_phase radio endpoint server_uri server_pubkey b in
    let (reports, b') = finish_inclusion id endpoint phase.1 in
    ((phase.0, includable id endpoint true false ∷ reports), b')
