-- ===== src/Kube.antt =====
-- The operator's use of the Kubernetes API (controllers/libs/client/helpers.go and the first half of
-- controllers/utils.go).
pub mod Exec
pub mod Client
pub mod Laws
pub mod Objects
pub mod Crud
pub mod Reads
pub mod Ensure
pub mod Converge
pub mod Settle
pub mod DryRun
