-- ===== src/Indicators/ClosePriceWindow.antt =====
-- trading/indicators/ClosePriceWindow.cpp: the close of `length` candles ago.
use coin_bot.Base.{ℕ, ◌+◌, true, Option, none, some}
use coin_bot.Double.{Double, lit}
use coin_bot.Domain.Account.{Candle}
use coin_bot.RingBuffer
use coin_bot.RingBuffer.{RingBuffer, push, value_from_back}
use coin_bot.Indicators.{Value, not_ready}

pub record ClosePriceWindow (D : Type 0) : Type 0 where
  pub length : ℕ
  pub window : RingBuffer D

module _ {D : Type 0} ⦃d : Double D⦄ where
  unfoldable pub reset : ℕ → ClosePriceWindow D
  reset length = record { length = length; window = RingBuffer.reset (lit 0) (length + 1) }

  unfoldable pub clear : ClosePriceWindow D → ClosePriceWindow D
  clear w = record w { window = RingBuffer.clear w.window }

  unfoldable pub of_optional : Option D → Value D
  of_optional none = not_ready
  of_optional (some v) = record { ready = true; v = v }

  unfoldable pub close_n : ClosePriceWindow D → Value D
  unfolding of_optional
  close_n w = of_optional (value_from_back w.window w.length)

  unfoldable pub update : D → ClosePriceWindow D → Value D × ClosePriceWindow D
  unfolding of_optional
  update close w =
      let (overwritten, window) = push w.window close in
      (of_optional (value_from_back window w.length), record w { window = window })

  unfoldable pub update_candle : Candle D → ClosePriceWindow D → Value D × ClosePriceWindow D
  unfolding update
  update_candle c w = update c.close_price w
