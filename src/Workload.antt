-- ===== src/Workload.antt =====
-- The statefulsets and deployments: when they are changed, and when they are ready.
pub mod Image
mod Messages
pub mod Annotations
pub mod Objects
pub mod Ready
pub mod Ensure
pub mod Views
pub mod Settle
