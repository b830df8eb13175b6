-- ===== src/Tests.antt =====
-- The theorems at concrete messages, accounts and answers, with the platform of `Tests.Data`.
pub mod Data
pub mod Mailbox
pub mod Proofs
pub mod Gate
pub mod Signals
pub mod Selection
pub mod Gmail
pub mod Comparisons
pub mod Questions
pub mod Maturity
pub mod Bodies
