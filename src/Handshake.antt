-- ===== src/Handshake.antt =====
-- The websocket handshake: src/server/websocket.rs and src/websocket/keys.rs.
pub mod Keys
pub mod Base64
pub mod Upgrade
pub mod Laws
mod Examples
