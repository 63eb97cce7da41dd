-- ===== src/Codec.antt =====
-- pkg/codec/encodings: type codecs, from single numbers to arrays, slices and structs of them.
pub mod Values
pub mod Bytes
pub mod Interface
pub mod Numbers
pub mod Elements
pub mod Structs
pub mod Text
pub mod BigInts
pub mod NumberLaws
pub mod IntLaws
pub mod ElementLaws
pub mod SliceLaws
pub mod StructLaws
pub mod StructTrips
pub mod StructSafety
pub mod StructSizes
pub mod TextLaws
pub mod BigIntLaws
pub mod Tests
pub mod StructTests
pub mod BigIntTests
