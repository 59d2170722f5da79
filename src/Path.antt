-- ===== src/Path.antt =====
-- path.go: canonical paths, project names, and the rules for project directories.
pub mod Text
pub mod Canonical
pub mod Within
pub mod Slug
pub mod Policy
