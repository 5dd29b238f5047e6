-- ===== src/Wifi.antt =====
-- components/wifi_manager: the station with its connection attempts, the recovery access point, and
-- the trial of new credentials.
pub mod State
pub mod Events
pub mod Attempts
pub mod Trial
pub mod Provision
pub mod Start
pub mod Steps
mod Modes
mod Waits
mod Invariant
mod Preserve
mod Reached
mod Rollback
mod Outcome
mod Exhaust
mod Recovery
pub mod Tests
