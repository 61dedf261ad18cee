-- ===== src/Strategy/State.antt =====
-- The state of strategies/RsiMeanReversionStrategy.h, and the small methods on it.
use coin_bot.Base.{ℕ, ◌+◌, ◌%◌, ◌^◌, String, ◌<>◌, Bool, false, Option, none, some, if◌then◌else◌}
use coin_bot.Double.{Double, ◌⊕◌, ◌⊖◌, ◌⊗◌, ◌⊘◌, ◌<?◌, lit, max}
use coin_bot.Domain.OrderTypes.{OrderPosition, OrderType}
use coin_bot.Domain.Order.{OrderRequest, volume_size, amount_size}
use coin_bot.Indicators.Rsi
use coin_bot.Indicators.Rsi.{RsiWilder}
use coin_bot.Indicators.ClosePriceWindow
use coin_bot.Indicators.ClosePriceWindow.{ClosePriceWindow}
use coin_bot.Indicators.Volatility
use coin_bot.Indicators.Volatility.{ChangeVolatilityIndicator}
use coin_bot.Strategy.Types.{Snapshot, bare_snapshot, PositionSnapshot, has_position}

pub record Params (D : Type 0) : Type 0 where
  pub rsi_length : ℕ
  pub oversold : D
  pub overbought : D
  pub trend_look_window : ℕ
  pub max_trend_strength : D
  pub volatility_window : ℕ
  pub min_volatility : D
  pub utilization : D
  pub stop_loss_pct : D
  pub profit_target_pct : D

pub data State : Type 0 where
  flat pending_entry in_position pending_exit : State

pub record RsiMeanReversionStrategy (D : Type 0) : Type 0 where
  pub market : String
  pub params : Params D
  pub state : State
  pub pending_client_id : Option String
  pub pending_exit_reason : String
  pub pending_filled_volume : D
  pub pending_cost_sum : D
  pub pending_last_price : D
  pub entry_price : Option D
  pub stop_price : Option D
  pub target_price : Option D
  pub rsi : RsiWilder D
  pub close_n : ClosePriceWindow D
  pub vol : ChangeVolatilityIndicator D
  pub seq : ℕ
  pub signal_snapshot : Snapshot D
  -- whether `signal_callback_` is set
  pub has_callback : Bool
  pub last_candle_ts : Option String

abbrev pub id_text : String
id_text = "rsi_mean_reversion"

module _ {D : Type 0} ⦃d : Double D⦄ where
  abbrev pub clear_fills : RsiMeanReversionStrategy D → RsiMeanReversionStrategy D
  clear_fills s = record s {
    pending_filled_volume = lit 0;
    pending_cost_sum = lit 0;
    pending_last_price = lit 0;
  }

  -- `clearPendingState`
  abbrev pub clear_pending : RsiMeanReversionStrategy D → RsiMeanReversionStrategy D
  clear_pending s = clear_fills (record s { pending_client_id = none; pending_exit_reason = "" })

  abbrev pub clear_prices : RsiMeanReversionStrategy D → RsiMeanReversionStrategy D
  clear_prices s = record s { entry_price = none; stop_price = none; target_price = none }

  unfoldable pub reset : RsiMeanReversionStrategy D → RsiMeanReversionStrategy D
  reset s = record (clear_prices (clear_pending s)) {
    state = State.flat;
    rsi = Rsi.clear s.rsi;
    close_n = ClosePriceWindow.clear s.close_n;
    vol = Volatility.clear s.vol;
    signal_snapshot = bare_snapshot (lit 0);
    last_candle_ts = none;
  }

  -- The constructor.
  unfoldable pub construct : RsiWilder D → String → Params D → RsiMeanReversionStrategy D
  unfolding reset
  construct blank_rsi market p = reset (record {
    market = market;
    params = p;
    state = State.flat;
    pending_client_id = none;
    pending_exit_reason = "";
    pending_filled_volume = lit 0;
    pending_cost_sum = lit 0;
    pending_last_price = lit 0;
    entry_price = none;
    stop_price = none;
    target_price = none;
    rsi = Rsi.reset p.rsi_length blank_rsi;
    close_n = ClosePriceWindow.reset p.trend_look_window;
    vol = Volatility.reset p.volatility_window;
    seq = 0;
    signal_snapshot = bare_snapshot (lit 0);
    has_callback = false;
    last_candle_ts = none;
  })

  unfoldable pub set_stops_from_entry : D → RsiMeanReversionStrategy D → RsiMeanReversionStrategy D
  set_stops_from_entry entry s =
      let sl = max (lit 0) s.params.stop_loss_pct in
      let tp = max (lit 0) s.params.profit_target_pct in
      record s {
        stop_price = some (entry ⊗ (lit 1 ⊖ (sl ⊘ lit 100)));
        target_price = some (entry ⊗ (lit 1 ⊕ (tp ⊘ lit 100)));
      }

  -- An entry price with the stops that follow from it.
  abbrev pub set_entry : D → RsiMeanReversionStrategy D → RsiMeanReversionStrategy D
  set_entry entry s = set_stops_from_entry entry (record s { entry_price = some entry })

  -- `uuid` is the random text that `makeUuidV4` gives.
  unfoldable pub make_identifier :
      String → String → RsiMeanReversionStrategy D → String × RsiMeanReversionStrategy D
  make_identifier uuid tag s = (
    id_text <> ":" <> s.market <> ":" <> tag <> ":" <> uuid,
    record s { seq = (s.seq + 1) % 2 ^ 64 },
  )

  unfoldable pub make_market_buy_by_amount :
      D → String → RsiMeanReversionStrategy D → OrderRequest D
  make_market_buy_by_amount krw_amount tag s = record {
    market = s.market;
    position = OrderPosition.bid;
    type = OrderType.market;
    size = amount_size krw_amount;
    price = none;
    strategy_id = id_text;
    identifier = "";
    client_tag = tag;
  }

  unfoldable pub make_market_sell_by_volume :
      D → String → RsiMeanReversionStrategy D → OrderRequest D
  make_market_sell_by_volume volume tag s = record {
    market = s.market;
    position = OrderPosition.ask;
    type = OrderType.market;
    size = volume_size volume;
    price = none;
    strategy_id = id_text;
    identifier = "";
    client_tag = tag;
  }

  unfoldable pub sync_on_start :
      PositionSnapshot D → RsiMeanReversionStrategy D → RsiMeanReversionStrategy D
  sync_on_start pos s =
      let s = clear_pending s in
      if has_position pos
      then if lit 0 <? pos.avg_entry_price
        then set_entry pos.avg_entry_price (record s { state = State.in_position })
        else clear_prices (record s { state = State.flat })
      else clear_prices (record s { state = State.flat })
