-- ===== src/Indicators/Sma.antt =====
-- trading/indicators/Sma.cpp: the mean of the last `length` closes, kept as a running sum.
use coin_bot.Base.{ℕ, true, ◌&&◌, Option, none, some, ltb, ◌==◌, if◌then◌else◌}
use coin_bot.Double.{Double, ◌⊕◌, ◌⊖◌, ◌⊘◌, lit}
use coin_bot.Domain.Account.{Candle}
use coin_bot.RingBuffer
use coin_bot.RingBuffer.{RingBuffer, full, push}
use coin_bot.Indicators.{Value, not_ready}

pub record Sma (D : Type 0) : Type 0 where
  pub length : ℕ
  pub window : RingBuffer D
  pub sum : D

abbrev pub less : {D : Type 0} ⦃d : Double D⦄ → D → Option D → D
less sum none = sum
less sum (some overwritten) = sum ⊖ overwritten

module _ {D : Type 0} ⦃d : Double D⦄ where
  unfoldable pub reset : ℕ → Sma D
  reset length = record { length = length; window = RingBuffer.reset (lit 0) length; sum = lit 0 }

  unfoldable pub clear : Sma D → Sma D
  clear s = record s { window = RingBuffer.clear s.window; sum = lit 0 }

  unfoldable pub value : Sma D → Value D
  value s =
      if ltb 0 s.length && full s.window
      then record { ready = true; v = s.sum ⊘ lit s.length }
      else not_ready

  unfoldable pub update : D → Sma D → Value D × Sma D
  update x s =
      if s.length == 0
      then (not_ready, s)
      else let (overwritten, window) = push s.window x in
        let sum = less s.sum overwritten ⊕ x in
        (
          record { ready = full window; v = if full window then sum ⊘ lit s.length else lit 0 },
          record s { window = window; sum = sum },
        )

  unfoldable pub update_candle : Candle D → Sma D → Value D × Sma D
  unfolding update
  update_candle c s = update c.close_price s
