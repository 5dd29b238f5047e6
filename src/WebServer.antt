-- ===== src/WebServer.antt =====
-- components/web_server: the table of WebSocket clients, and the static files.
pub mod Clients
pub mod Acts
pub mod Broadcast
pub mod Files
pub mod Serve
mod Table
mod Sound
mod Sends
mod Closed
mod Broadcasts
mod Stale
mod Late
mod Etags
mod Tests
