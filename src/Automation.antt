-- ===== src/Automation.antt =====
-- automation/service.py: the daily slot, the service levels, and the runs with their steps.
pub mod Models
pub mod Slots
pub mod Levels
pub mod Skips
pub mod Runs
mod Tests
