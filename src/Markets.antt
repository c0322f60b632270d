-- ===== src/Markets.antt =====
-- The prediction markets: fees, fills and matching (markets/).
pub mod Model
pub mod Frame
pub mod Money
pub mod Fees
pub mod Orders
pub mod Positions
pub mod Exits
pub mod Fill
pub mod Execute
pub mod Matching
pub mod Cancellation
pub mod Expiry
pub mod CloseCleanup
pub mod Complements
pub mod Settlement
pub mod Liquidity
pub mod Lifecycle
pub mod Tests
pub mod ReleaseTests
