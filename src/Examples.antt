-- ===== src/Examples.antt =====
-- Tests, and the theorems at concrete inputs.
mod Registry
mod Documents
mod Inclusion
mod Client
mod Server
mod Consent
mod Cbor
mod Certificates
mod Ipc
mod WritePhase
mod Devices
mod Packets
