-- ===== src/Provider.antt =====
-- packages/network/src/provider: the translation between VeChainThor and the JSON-RPC of Ethereum.
pub mod Details
pub mod LogDetails
pub mod Rpc
pub mod Formatters
pub mod Receipts
pub mod Indexes
pub mod Numbering
pub mod NumberedReceipts
pub mod Methods
pub mod BlockReceipts
pub mod Logs
pub mod Criteria
pub mod Subscriptions
pub mod Delivery
pub mod Polling
