-- ===== src/Conds.antt =====
-- controllers/libs/conds/conditions.go: the conditions of a custom resource's status.
pub mod Refresh
pub mod Settle
