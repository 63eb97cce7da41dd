-- ===== src/Consensus.antt =====
-- pkg/capabilities/consensus/ocr3: the reporting plugin.
pub mod Types
pub mod Votes
pub mod Tally
pub mod Oracles
pub mod Timestamps
pub mod Quorum
pub mod Pruning
pub mod Carried
pub mod Renewed
pub mod Round
pub mod Phases
pub mod Reports
pub mod Delivery
pub mod Rounds
pub mod Tests
pub mod PhaseTests
