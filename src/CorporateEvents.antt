-- ===== src/CorporateEvents.antt =====
-- corporate_events/: the classification of disclosures and the events that are read from them.
pub mod Models
pub mod Rules
pub mod Classify
pub mod Extract
pub mod Candidates
mod Tests
