-- ===== src/Vcdm.antt =====
-- packages/core/src/vcdm: the VeChain data model.
pub mod Hex
pub mod HexInt
pub mod Quantity
pub mod ThorId
pub mod Numbers
pub mod Revision
pub mod Address
