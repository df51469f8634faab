-- ===== src/Diff.antt =====
-- src/server/diff: line diffs.
pub mod Hunks
pub mod Myers
