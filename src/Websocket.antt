-- ===== src/Websocket.antt =====
-- The websocket framing of src/websocket/.
pub mod Frame
pub mod Parse
pub mod Write
pub mod Mask
pub mod Header
pub mod RoundTrip
pub mod Bounds
pub mod Codec
mod Examples
