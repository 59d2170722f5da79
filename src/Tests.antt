-- ===== src/Tests.antt =====
-- Concrete inputs, runs of the definitions on them, and the theorems applied to them.
pub mod Sample
mod Paths
mod Vms
mod Agents
mod Locks
mod Configs
mod Commands
mod Replacements
mod Packages
mod Trust
mod Settings
mod Prepare
