-- ===== src/Proxy.antt =====
-- The SOCKS5 proxy of a dial (socket/Dial.cpp): its URL and its handshake.
pub mod Addresses
pub mod Target
pub mod Escapes
pub mod Validity
pub mod Request
pub mod Wire
pub mod Handshake
pub mod Replies
