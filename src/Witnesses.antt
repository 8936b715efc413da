-- ===== src/Witnesses.antt =====
-- The theorems at concrete inputs.
mod Streams
mod Endpoints
mod Secure
mod Inbound
mod Packets
