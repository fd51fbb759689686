-- ===== src/Tests.antt =====
-- The theorems at concrete inputs.
mod Packages
mod Bodies
mod Transactions
mod Values
mod Filters
mod Polls
mod Paths
mod Receipts
mod Listening
mod Subscriptions
mod Names
mod Sending
mod Signers
mod Strings
