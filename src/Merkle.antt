-- ===== src/Merkle.antt =====
-- pkg/merklemulti: Merkle trees and proofs for several leaves at once.
pub mod Tree
pub mod Verify
pub mod Queue
pub mod Arrays
pub mod Refine
pub mod Accepts
pub mod Layer
pub mod Roundtrip
pub mod Tests
