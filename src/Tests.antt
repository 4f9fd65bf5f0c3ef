-- ===== src/Tests.antt =====
-- Runs of the models on concrete inputs.
pub mod Fixtures
pub mod Texts
pub mod Targets
pub mod Verbs
pub mod Clusters
pub mod Web
pub mod Commands
pub mod Server
