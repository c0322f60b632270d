-- ===== src/Wallets.antt =====
-- The wallet service: the double-entry ledger and the withdrawals (wallets/).
pub mod Model
pub mod Normalize
pub mod Transition
pub mod Execute
pub mod Service
pub mod Balances
pub mod Ledger
pub mod Rows
pub mod Risk
pub mod Requests
pub mod Deposits
pub mod Withdrawals
pub mod History
pub mod Tests
