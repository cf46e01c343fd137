-- ===== src/Examples.antt =====
-- Tests of the definitions, and each theorem with hypotheses at a concrete input. The API server is a
-- list of objects here.
mod Store
mod Filling
mod Inifile
mod Rotations
mod Jobs
mod Conf
mod Written
mod Cleanup
mod Cluster
mod Workloads
mod Resources
mod Pipelines
mod Steps
