-- ===== src/Interface.antt =====
-- The work-unit interface (crates/interface/src/lib.rs): the units that come in, the verdicts that
-- go out, and the manifest of what this box can run.
pub mod Types
pub mod Verdicts
pub mod Validation
pub mod Requirements
pub mod Manifest
pub mod Canonical
