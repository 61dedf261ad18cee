-- ===== src/Indicators.antt =====
-- trading/indicators: what the strategy computes from the closes of the candles, one update for each
-- candle.
pub mod Rsi
pub mod Sma
pub mod ClosePriceWindow
pub mod Volatility
pub mod History
pub mod Windows
pub mod Readiness
mod Tests
use coin_bot.Base.{Bool, false, Option, none, some, if◌then◌else◌}
use coin_bot.Double.{Double, lit}

pub record Value (D : Type 0) : Type 0 where
  pub ready : Bool
  pub v : D

pub as_optional : {D : Type 0} → Value D → Option D
as_optional x = if x.ready then some x.v else none

abbrev pub not_ready : {D : Type 0} ⦃d : Double D⦄ → Value D
not_ready = record { ready = false; v = lit 0 }
