-- ===== src/Upbit.antt =====
-- What goes to the exchange and what comes from it: src/api/upbit.
pub mod Dto
pub mod MyOrder
pub mod Answers
pub mod OpenOrders
pub mod SameOrder
pub mod Exchange
pub mod Shared
pub mod Signed
pub mod Accepted
pub mod Messages
pub mod Told
pub mod MinuteUnit
pub mod Tests
