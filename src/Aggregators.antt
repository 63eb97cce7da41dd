-- ===== src/Aggregators.antt =====
-- pkg/capabilities/consensus/ocr3/aggregators.
pub mod Identical
pub mod Counters
pub mod NodeCounts
pub mod Quorum
pub mod Tests
pub mod ReduceConfig
pub mod ValidConfig
pub mod ConfigTests
pub mod Mode
pub mod MostFrequent
pub mod Reduce
pub mod ReduceRun
pub mod Median
pub mod Deviation
pub mod ReduceTests
