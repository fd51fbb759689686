-- ===== src/Rlp.antt =====
-- packages/core/src/encoding/rlp: profiles of RLP data, and how values are packed and unpacked.
pub mod Value
pub mod Kinds
pub mod Profiler
pub mod Blobs
pub mod Compact
pub mod Numerics
pub mod Members
pub mod Scalars
pub mod Conditions
pub mod Arrays
pub mod RoundTrip
pub mod Shapes
