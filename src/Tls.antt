-- ===== src/Tls.antt =====
-- TLS: the DER reader, the names of a certificate, the
-- verifier, the handshake, and the stream behind it.
pub mod Der
pub mod Names
pub mod Verifier
pub mod Client
pub mod Handshake
