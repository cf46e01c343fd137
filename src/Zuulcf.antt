-- ===== src/Zuulcf.antt =====
-- controllers/libs/zuulcf/zuulcf.go: the pieces of Zuul configuration that the bootstrap command
-- writes for a code review driver.
pub mod Types
pub mod Values
pub mod Require
pub mod Trigger
pub mod Reporters
pub mod Drivers
pub mod Gate
