-- ===== src/Research.antt =====
-- The change rules of the research engine: research/rules.py and the types of research/models.py.
pub mod Models
pub mod Series
pub mod Observations
pub mod Rules
pub mod Comparisons
pub mod Evaluate
pub mod Directions
pub mod Differences
pub mod Percentiles
pub mod Total
pub mod Returned
pub mod Tests
