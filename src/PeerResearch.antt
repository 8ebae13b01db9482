-- ===== src/PeerResearch.antt =====
-- peer_research/: the deterministic comparison of a company with its industry peers.
pub mod Models
pub mod Statistics
pub mod Compare
mod Tests
