-- ===== src/Tests.antt =====
-- The theorems at concrete inputs.
pub mod OfProxy
pub mod OfTls
pub mod OfHttp
pub mod OfSockets
pub mod OfDial
pub mod OfClient
pub mod OfServer
pub mod OfHandshake
pub mod OfOptions
