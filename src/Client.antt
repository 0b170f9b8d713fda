-- ===== src/Client.antt =====
-- The client: responses are read by src/client/parser.rs, src/client/head.rs and
-- src/client/recv_mode.rs, the connection is src/client/proto.rs.
pub mod Scan
pub mod ScanLaws
pub mod Head
pub mod Reader
pub mod Bodies
pub mod StreamEnd
pub mod Connection
pub mod Polls
pub mod Sound
pub mod InFlight
pub mod Sending
pub mod Sends
mod InFlightTests
mod Examples
