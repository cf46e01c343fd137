-- ===== src/Reconcile.antt =====
-- The reconciliation of a Software Factory: its steps, and the loops around them.
pub mod Services
pub mod Wait
pub mod Secrets
pub mod Cleanup
pub mod Steps
pub mod Picks
pub mod Backing
mod Companions
pub mod Ready
pub mod Loop
pub mod Status
pub mod Complete
