-- ===== src/Http.antt =====
-- The HTTP client of main.cpp.
pub mod Chunk
pub mod Headers
pub mod Transfer
pub mod Url
pub mod Pushed
