-- ===== src/Artifacts.antt =====
-- src/server/artifacts: the git storage that backs the repositories.
pub mod Names
