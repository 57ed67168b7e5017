-- ===== src/Http.antt =====
-- The streamable HTTP transport of the server.
pub mod Validation
pub mod Streams
pub mod Sessions
