-- ===== src/HotTub/Callbacks.antt =====
-- components/hot_tub_controller/src/hot_tub_callbacks.c: the commands of the hot tub.
pub mod Params
pub mod Getters
pub mod Setters
pub mod Table
pub mod Dispatch
pub mod NoParam
pub mod Effects
mod Tests
