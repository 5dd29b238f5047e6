-- ===== src/Float.antt =====
-- The C types `float` and `double` with the operations that the controller applies to them.
-- The compiler's arithmetic is no code of the repository, so it is a parameter; `FloatLaws` states
-- what the timers rely on. `Float.Fixed` is an instance that runs.
pub mod Fixed
pub mod Ops
