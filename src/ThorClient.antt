-- ===== src/ThorClient.antt =====
-- packages/network/src/thor-client: the modules of the client, over the HTTP package.
pub mod Http
pub mod Blocks
pub mod Transactions
pub mod Names
pub mod NameMaps
pub mod Resolving
pub mod Sending
pub mod Sent
pub mod Awaited
pub mod Building
pub mod Built
pub mod BlockWaiting
pub mod Sets
pub mod Addresses
