-- ===== src/Domain.antt =====
-- core/domain: the data that the parts of the bot exchange.
pub mod OrderTypes
pub mod Order
pub mod Account
