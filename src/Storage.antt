-- ===== src/Storage.antt =====
-- components/nvs_storage: the Wi-Fi credentials and the counter of boot failures in the
-- non-volatile storage.
pub mod Driver
pub mod Credentials
pub mod RoundTrip
pub mod Restart
pub mod BootFailures
pub mod Memory
mod Tests
