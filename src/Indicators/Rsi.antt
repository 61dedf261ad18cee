-- ===== src/Indicators/Rsi.antt =====
-- trading/indicators/RsiWilder.cpp: the relative strength index with Wilder's smoothing.
use coin_bot.Base.{ℕ, ◌+◌, true, ◌&&◌, Option, none, some, ltb, ◌==◌, if◌then◌else◌}
use coin_bot.Double.{Double, ◌⊕◌, ◌⊖◌, ◌⊗◌, ◌⊘◌, ◌<?◌, ◌=?◌, lit}
use coin_bot.Domain.Account.{Candle}
use coin_bot.Indicators.{Value, not_ready}

pub record RsiWilder (D : Type 0) : Type 0 where
  pub length : ℕ
  pub prev_price : Option D
  pub seed_count : ℕ
  pub seed_gain_sum : D
  pub seed_loss_sum : D
  pub avg_gain : D
  pub avg_loss : D
  pub last : Value D

module _ {D : Type 0} ⦃d : Double D⦄ where
  unfoldable pub clear : RsiWilder D → RsiWilder D
  clear r = record {
    length = r.length;
    prev_price = none;
    seed_count = 0;
    seed_gain_sum = lit 0;
    seed_loss_sum = lit 0;
    avg_gain = lit 0;
    avg_loss = lit 0;
    last = not_ready;
  }

  unfoldable pub reset : ℕ → RsiWilder D → RsiWilder D
  unfolding clear
  reset length r = clear (record r { length = length })

  unfoldable pub compute_rsi : D → D → D
  compute_rsi avg_gain avg_loss =
      if (avg_gain =? lit 0) && (avg_loss =? lit 0)
      then lit 50
      else if avg_loss =? lit 0
      then lit 100
      else if avg_gain =? lit 0
      then lit 0
      else let rs = avg_gain ⊘ avg_loss in lit 100 ⊖ (lit 100 ⊘ (lit 1 ⊕ rs))

  abbrev pub gain_of : D → D
  gain_of delta = if lit 0 <? delta then delta else lit 0

  abbrev pub loss_of : D → D
  loss_of delta = if delta <? lit 0 then d.neg delta else lit 0

  -- A new pair of averages, and the index that it gives.
  unfoldable pub publish : D → D → RsiWilder D → Value D × RsiWilder D
  unfolding compute_rsi
  publish gain loss r =
      let out : Value D = record { ready = true; v = compute_rsi gain loss } in
      (out, record r { avg_gain = gain; avg_loss = loss; last = out })

  -- The first `length` changes are summed; the last of them gives the first averages.
  unfoldable pub seed : D → D → RsiWilder D → Value D × RsiWilder D
  unfolding publish
  seed gain loss r =
      let r' = record r {
        seed_gain_sum = r.seed_gain_sum ⊕ gain;
        seed_loss_sum = r.seed_loss_sum ⊕ loss;
        seed_count = r.seed_count + 1;
      } in
      if ltb r'.seed_count r'.length
      then (not_ready, r')
      else publish (r'.seed_gain_sum ⊘ lit r'.length) (r'.seed_loss_sum ⊘ lit r'.length) r'

  unfoldable pub smooth : D → D → RsiWilder D → Value D × RsiWilder D
  unfolding publish
  smooth gain loss r =
      let n = lit r.length in
      publish ((r.avg_gain ⊗ (n ⊖ lit 1) ⊕ gain) ⊘ n) ((r.avg_loss ⊗ (n ⊖ lit 1) ⊕ loss) ⊘ n) r

  unfoldable pub change : D → RsiWilder D → Value D × RsiWilder D
  unfolding seed smooth
  change delta r =
      if ltb r.seed_count r.length
      then seed (gain_of delta) (loss_of delta) r
      else smooth (gain_of delta) (loss_of delta) r

  unfoldable pub update_from : D → Option D → RsiWilder D → Value D × RsiWilder D
  unfolding change
  update_from close_price none r = (not_ready, record r { prev_price = some close_price })
  update_from close_price (some prev) r =
      change (close_price ⊖ prev) (record r { prev_price = some close_price })

  unfoldable pub update : D → RsiWilder D → Value D × RsiWilder D
  unfolding update_from
  update close_price r =
      if r.length == 0 then (not_ready, r) else update_from close_price r.prev_price r

  unfoldable pub update_candle : Candle D → RsiWilder D → Value D × RsiWilder D
  unfolding update
  update_candle c r = update c.close_price r

  unfoldable pub value : RsiWilder D → Value D
  value r = r.last
