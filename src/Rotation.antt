-- ===== src/Rotation.antt =====
-- controllers/secrets.go: the rotation of the generated secrets.
pub mod Errors
pub mod Secrets
pub mod Keystore
pub mod Order
