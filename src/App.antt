-- ===== src/App.antt =====
-- components/app_controller: the start of the application, and how it acts with the boot check.
pub mod Start
pub mod Boots
mod Tests
