-- ===== src/Ci.antt =====
-- CI pipelines: packages/ci-config (the plan of a pipeline) and ci/ (running it).
pub mod Emitted
pub mod LogStream
pub mod Plan
pub mod Runner
