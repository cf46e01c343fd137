-- ===== src/ConfigJob.antt =====
-- controllers/config.go: the job that sets the secrets of the system-config repository, and the
-- reconfiguration of the tenant internal.
pub mod Setup
pub mod Recorded
