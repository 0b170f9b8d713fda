-- ===== src/Server.antt =====
-- The server's end of a connection, src/server/proto.rs, with its modes and its configuration.
pub mod Config
pub mod State
pub mod Reads
pub mod Writes
pub mod Process
pub mod Queue
pub mod Sound
pub mod Rounds
pub mod Turns
pub mod Progress
pub mod Requests
pub mod Hazards
pub mod Backpressure
mod Examples
