-- ===== src/Transaction.antt =====
-- packages/core/src/transaction, with its constants in packages/core/src/utils/const/transaction.ts.
pub mod Body
pub mod Signing
pub mod Decode
pub mod Reserved
pub mod Members
pub mod Matched
pub mod RoundTrip
pub mod Signers
pub mod Getters
pub mod Gas
pub mod Intrinsic
