-- ===== src/Link.antt =====
-- The server and the client together: what one sends, the other reads (src/server/server.cpp,
-- src/client/client.cpp).
pub mod Replies
pub mod Requests
pub mod Session
pub mod Handshake
pub mod AudioHeader
pub mod Audio
pub mod Commands
pub mod Heartbeat
mod Runs
