-- ===== src/Ble.antt =====
-- components/ble_service: the frames of long messages, and the commands of a BLE client.
pub mod Frames
pub mod Text
pub mod Commands
pub mod Rx
mod Sizes
mod Reassemble
mod Secure
mod Tests
