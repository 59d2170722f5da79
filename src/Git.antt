-- ===== src/Git.antt =====
-- git.go: the Git configuration that a guest gets.
pub mod Environment
