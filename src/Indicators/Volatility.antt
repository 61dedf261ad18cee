-- ===== src/Indicators/Volatility.antt =====
-- trading/indicators/ChangeVolatilityIndicator.cpp: the standard deviation of the last `length` rates of
-- change of the close.
use coin_bot.Base.{ℕ, true, ◌&&◌, Option, none, some, ltb, ◌==◌, if◌then◌else◌}
use coin_bot.Double.{Double, ◌⊕◌, ◌⊖◌, ◌⊗◌, ◌⊘◌, ◌<?◌, ◌≤?◌, ◌=?◌, lit}
use coin_bot.Domain.Account.{Candle}
use coin_bot.RingBuffer
use coin_bot.RingBuffer.{RingBuffer, full, push}
use coin_bot.Indicators.{Value, not_ready}
use coin_bot.Indicators.Sma.{less}

pub record ChangeVolatilityIndicator (D : Type 0) : Type 0 where
  pub length : ℕ
  pub window : RingBuffer D
  pub sum : D
  pub sumsq : D
  pub prev_close : Option D

abbrev pub less_square : {D : Type 0} ⦃d : Double D⦄ → D → Option D → D
less_square sumsq none = sumsq
less_square sumsq (some old) = sumsq ⊖ old ⊗ old

module _ {D : Type 0} ⦃d : Double D⦄ where
  unfoldable pub reset : ℕ → ChangeVolatilityIndicator D
  reset length =
      let length = if ltb length 2 then 2 else length in
      record {
        length = length;
        window = RingBuffer.reset (lit 0) length;
        sum = lit 0;
        sumsq = lit 0;
        prev_close = none;
      }

  unfoldable pub clear : ChangeVolatilityIndicator D → ChangeVolatilityIndicator D
  clear s = record s {
    window = RingBuffer.clear s.window;
    sum = lit 0;
    sumsq = lit 0;
    prev_close = none;
  }

  unfoldable pub stdev : ℕ → D → D → D
  stdev length sum sumsq =
      let n = lit length in
      if n ≤? lit 2
      then lit 0
      else let mean = sum ⊘ n in
        let var = (sumsq ⊘ n) ⊖ (mean ⊗ mean) in d.sqrt (if var <? lit 0 then lit 0 else var)

  unfoldable pub value : ChangeVolatilityIndicator D → Value D
  unfolding stdev
  value s =
      if ltb 0 s.length && full s.window
      then record { ready = true; v = stdev s.length s.sum s.sumsq }
      else not_ready

  unfoldable pub add_rate : D → ChangeVolatilityIndicator D → Value D × ChangeVolatilityIndicator D
  unfolding stdev
  add_rate r s =
      let (overwritten, window) = push s.window r in
      let sum = less s.sum overwritten ⊕ r in
      let sumsq = less_square s.sumsq overwritten ⊕ r ⊗ r in
      (
        record { ready = full window; v = if full window then stdev s.length sum sumsq else lit 0 },
        record s { window = window; sum = sum; sumsq = sumsq },
      )

  unfoldable pub update_from :
      D → Option D → ChangeVolatilityIndicator D → Value D × ChangeVolatilityIndicator D
  unfolding add_rate
  update_from close none s = (not_ready, record s { prev_close = some close })
  update_from close (some prev) s =
      if prev =? lit 0
      then (not_ready, record s { prev_close = some close })
      else add_rate ((close ⊖ prev) ⊘ prev) (record s { prev_close = some close })

  unfoldable pub update : D → ChangeVolatilityIndicator D → Value D × ChangeVolatilityIndicator D
  unfolding update_from
  update close s = if s.length == 0 then (not_ready, s) else update_from close s.prev_close s

  unfoldable pub update_candle :
      Candle D → ChangeVolatilityIndicator D → Value D × ChangeVolatilityIndicator D
  unfolding update
  update_candle c s = update c.close_price s
