-- ===== src/Serializer.antt =====
-- The message serializer shared by client and server, src/base_serializer.rs.
pub mod State
pub mod Head
pub mod Finish
pub mod Lines
pub mod Trace
pub mod Wire
mod Examples
