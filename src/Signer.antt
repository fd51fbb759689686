-- ===== src/Signer.antt =====
-- packages/network/src/signer and the delegation handler of packages/network/src/thor-client.
pub mod Populating
pub mod Delegation
pub mod PrivateKey
pub mod Checksums
pub mod Populated
pub mod Messages
pub mod Delegated
