-- ===== src/Volume.antt =====
-- The storage of the services: BaseGetStorageConfOrDefault, canStorageResize, reconcileExpandPVC and
-- reconcileExpandPVCs of controllers/utils.go.
pub mod Quantity
pub mod Storage
pub mod Expand
pub mod Grow
