-- ===== src/HotTub.antt =====
-- components/hot_tub_controller: the shared state, its setters and getters, persistence and the
-- heating control loop.
pub mod State
pub mod Persist
pub mod StructIo
pub mod Settings
pub mod Control
pub mod Callbacks
pub mod Safety
pub mod Stages
pub mod Heating
pub mod PostRun
pub mod Lockout
pub mod Bounds
pub mod Manual
pub mod Progress
pub mod Persistence
pub mod Sensor
pub mod Monitor
pub mod Polling
mod Tests
mod PersistenceTests
mod SensorTests
