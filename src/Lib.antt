-- ===== src/Lib.antt =====
-- The LWM2M server of the smart garden gateway.
--
-- The gateway talks CoAP over UDP with battery-powered devices. A device that is
-- not yet known asks for inclusion (the bootstrap interface); once approved it
-- registers, its commands are queued until it is awake, its answers complete
-- them, and it is dropped when its lifetime runs out. Clients of the gateway use
-- JSON over a socket.
--
-- The parts and the files that model them (paths from the repository's root):
--   Prelude    shared notation: byte strings, outcomes that may panic, option and
--              list lemmas, and the sums that the bitwise `or` of disjoint bits is.
--   Dict       the std::collections::HashMap of the program, as an association
--              list with get, insert, remove, and the laws the proofs use.
--   Json       serde_json::Value as far as the program builds and matches it, and
--              json_merge of src/registry.rs, the deep merge of device state.
--   Text       the std string methods the program calls (split, splitn, find,
--              trim_start_matches, str::parse of an unsigned integer), and
--              UTF-8.
--   Model      src/model.rs: commands, results, pending operations and devices.
--   Registry   src/registry.rs: RegistryInner is the state, each method of
--              DeviceRegistry a function of the state and of what the clock read.
--              Contact, Operations, Queries, Sweep and Persisted hold the methods;
--              Valid the invariant of the three indices; the rest the theorems.
--   Bootstrap  src/lwm2m/bootstrap.rs: its RegistryInner with sessions,
--              certificates, approvals and write acknowledgements; Cbor the encoders,
--              Objects the documents that an inclusion writes to the device; Der
--              the iterator over DER items, with Certificates and Validation the
--              checks of a device certificate.
--   Coap       src/lwm2m/mod.rs: what the program sets and reads of a CoAP packet,
--              response codes, content formats, endpoint names.
--   Client     src/lwm2m/client.rs: requests, message identifiers, the Block1
--              option; Dispatch the task that sends a request until it is answered;
--              BlockWrite the task that sends a large payload in blocks. Receiver
--              is a device that assembles the blocks, as RFC 7959 has it,
--              of which some are lost.
--   Server     src/lwm2m/server.rs: queries, the link format of a registration,
--              resource paths; Acks what an acknowledgement or a reset completes;
--              Requests update, deregistration and the routing of a POST, Registering a
--              registration;
--              Inclusion a request for inclusion, up to the start of the write phase;
--              WritePhase the five steps of that phase and its end;
--              Packets the loop that receives, and which handler a packet goes to.
--   Senml      the CBOR values of the crate ciborium; Pubkey the key in a device's
--              answer and the plaintext of the network key (src/lwm2m/bootstrap.rs),
--              Payload, Values and Reports a state report (src/lwm2m/server.rs).
--   Ipso       src/lwm2m/ipso.rs: the object model and its queries; Names the
--              names in snake case, Xml what the events of a document define.
--   Ipc        src/ipc/command.rs: Values what is read of a request's JSON, Requests
--              the handlers, Socket which handler a request goes to, Firmware the
--              upload of firmware, cut where it waits; Events src/ipc/event.rs.
--   Housekeeping
--              src/housekeeping.rs: one tick of the clock.
--   Examples   concrete inputs.
--
-- How code becomes definitions. A method that takes the registry's lock is one
-- step on the state behind the lock; a clock reading (Instant::now,
-- SystemTime::now) is an argument in nanoseconds or milliseconds. Strings and byte
-- vectors are lists of numbers below 256. A oneshot sender is a number, and
-- sending on it is a pair of the number and the value in the result. A method
-- that unwraps or slices returns an Outcome with a panic case. An
-- id wraps at 2^32 as in the code. A task of the client is a function from what
-- comes of each of its transmissions, and from what the other tasks do to the
-- registry while it waits, to its actions in order; the encoder of packets is an
-- argument. In Server.Acks the check of a device's certificate (parse_device_pubkey and
-- validate_device_certificate of src/lwm2m/bootstrap.rs, for which see Senml.Pubkey
-- and Bootstrap.Der) is an argument. The crates x509_cert, p256, aes, base64,
-- ciborium, quick_xml and serde_json decode, encode and verify as functions that are
-- arguments. The number of values of usize is an argument where it matters, since
-- the targets have 32 bits. A request of the IPC socket that waits for a device is
-- given what the wait ends with and what other tasks change meanwhile; for the
-- upload of firmware the steps between waits are events in any order, and what is
-- followed is the guard of the lock, not the transfer of the blocks, which may
-- outlive it. For what a device assembles of a block-wise write, an acknowledgement
-- that is accepted is taken to be that of the block sent last, and any packet that
-- is not acknowledged may be lost; the code matches acknowledgements by the token
-- only, which is among the findings.
-- The loop over the blocks of a payload runs on fuel, a unit per byte; each round
-- moves on by a block of at least 16 bytes, so it is enough. The searches through
-- DER items run on fuel, a unit per byte and one more, and each item has two bytes
-- at least; where the fuel ran out the model would panic. The digits of a number n
-- are printed with fuel n + 1, more than it has digits.
--
-- Not modelled: sockets, DTLS, the async runtime and its scheduling inside one
-- method, log output (with format_resource_value and hex), argument parsing, the
-- files of src/persistence.rs and src/config.rs, what other tasks do between two
-- packets in the receiving loop of src/lwm2m/server.rs, the XML reader, and the iteration order of a HashMap (the theorems do not
-- depend on it).
pub mod Prelude
pub mod Dict
pub mod Json
pub mod Text
pub mod Model
pub mod Registry
pub mod Bootstrap
pub mod Coap
pub mod Client
pub mod Ipso
pub mod Ipc
pub mod Senml
pub mod Housekeeping
pub mod Server
pub mod Examples
