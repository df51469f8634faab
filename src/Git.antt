-- ===== src/Git.antt =====
-- src/server/git: the git protocol spoken to the Artifacts remote.
pub mod PktLine
pub mod Refs
pub mod Objects
pub mod ReceivePack
pub mod Http
