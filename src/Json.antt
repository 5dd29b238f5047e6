-- ===== src/Json.antt =====
-- components/json_service: the items of a message, the registry of commands and the dispatcher.
pub mod Items
pub mod Registry
pub mod Rpc
pub mod Decimal
pub mod Envelope
pub mod Plain
mod Tests
