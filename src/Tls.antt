-- ===== src/Tls.antt =====
-- The offline TLS 1.3-style handshake simulator, src/pqc_bench/tls_simulator.py.
pub mod Messages
pub mod Schedule
pub mod Peer
pub mod Handshake
mod Sample
mod Examples
