-- ===== src/Ota.antt =====
-- components/ota_manager: the check of a new image at boot.
pub mod Boot
pub mod Rollback
pub mod Urls
pub mod Images
pub mod Update
pub mod Requests
mod Complete
mod UpdateTests
pub mod Tests
