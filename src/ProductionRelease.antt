-- ===== src/ProductionRelease.antt =====
-- production_release/: release candidates, their gates, approvals and deployment events.
pub mod Models
pub mod Environment
pub mod Checks
pub mod Tables
pub mod Gates
pub mod Service
mod Tests
