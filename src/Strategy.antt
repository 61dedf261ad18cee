-- ===== src/Strategy.antt =====
-- trading/strategies: the state machine that trades one market by the relative strength index. Its
-- methods run on the market's worker thread, one at a time.
pub mod Types
pub mod State
pub mod Decide
pub mod Follow
pub mod Invariant
pub mod Orders
pub mod Cycle
pub mod Undo
pub mod Tests
