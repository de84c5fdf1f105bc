-- ===== src/Engine.antt =====
-- The engine's pure parts, below server/internal/engine: state machines and pipeline triggers.
pub mod States
pub mod Texts
pub mod Images
pub mod Yaml
pub mod Spec
pub mod Dag
pub mod Parse
