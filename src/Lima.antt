-- ===== src/Lima.antt =====
-- lima.go: instances and their mounts as limactl lists them.
pub mod Json
pub mod Instances
pub mod Mounts
pub mod Inspect
pub mod Lifecycle
pub mod Prepare
