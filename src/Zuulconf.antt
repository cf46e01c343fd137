-- ===== src/Zuulconf.antt =====
-- controllers/zuul.go: the file zuul.conf and the services that read it.
pub mod Ini
pub mod Sections
pub mod Values
pub mod Review
pub mod Backends
pub mod Dump
pub mod Config
pub mod Ensure
pub mod Names
pub mod Reads
pub mod Edits
pub mod Changes
pub mod Adds
pub mod Stores
pub mod Refine
pub mod Connected
pub mod Frame
pub mod Sorted
pub mod Again
pub mod Dumped
pub mod Checksum
pub mod Waits
pub mod Ends
pub mod Sound
pub mod Readback
pub mod Services
pub mod Components
