-- ===== src/Watchdog.antt =====
-- components/app_watchdog: the task slots, the feed masks and the quorum that feeds the RTC watchdog.
pub mod Slots
pub mod Ops
pub mod Invariant
pub mod Report
pub mod Calls
pub mod PreserveFeed
pub mod Preserve
pub mod Starve
pub mod Fallback
pub mod Waiting
pub mod Rounds
mod Tests
