-- ===== src/Strategy/Tests.antt =====
-- The strategy's theorems at a strategy that has sent a buy, on whole numbers.
use coin_bot.Base.{false, ◌&&◌, none, some, List, [], ◌∷◌, ◌≡◌, refl, ◌≤◌, length, if◌then◌else◌}
use coin_bot.Double.{lit, ◌⊘◌}
use coin_bot.Double.Int.{ℤ, pos, int_double, ℤ-IsExact}
use coin_bot.Domain.OrderTypes.{OrderPosition, OrderStatus, PositionEffect, is_done}
use coin_bot.Domain.Account.{AppConfig, Candle}
use coin_bot.Indicators.Rsi.{RsiWilder}
use coin_bot.Strategy.Types.{AccountSnapshot, Decision, FillEvent, OrderStatusEvent}
use coin_bot.Strategy.State.{
  RsiMeanReversionStrategy, Params, State, construct, make_identifier, make_market_sell_by_volume,
}
use coin_bot.Strategy.Decide.{on_candle, on_intrabar_candle}
use coin_bot.Strategy.Follow.{is_mine, on_order_update, on_submit_failed}
use coin_bot.Strategy.Invariant.{IsCoherent, Reach, Step, Reach-IsCoherent}
use coin_bot.Strategy.Orders.{Answers, orders_one_at_a_time}
use coin_bot.Strategy.Undo.{Asks, IsBack, failed_submit}
use coin_bot.Strategy.Cycle.{order_ends, entry_is_mean, state_after, cost_of, volume_of, fill_all}

abbrev cfg : AppConfig ℤ
cfg = record {
  strategy = record { min_notional_krw = pos 5000 };
  engine = record {
    max_seen_trades = 3;
    max_private_batch = 10;
    reserve_margin = pos 1;
    default_trade_fee_rate = pos 0;
  };
  account = record {
    coin_epsilon = pos 1;
    krw_dust_threshold = pos 2;
    init_dust_threshold_krw = pos 5000;
  };
}

abbrev pub params : Params ℤ
params = record {
  rsi_length = 2;
  oversold = pos 30;
  overbought = pos 70;
  trend_look_window = 2;
  max_trend_strength = pos 4;
  volatility_window = 2;
  min_volatility = pos 0;
  utilization = pos 1;
  stop_loss_pct = pos 10;
  profit_target_pct = pos 15;
}

abbrev pub blank : RsiWilder ℤ
blank = record {
  length = 0;
  prev_price = none;
  seed_count = 0;
  seed_gain_sum = pos 0;
  seed_loss_sum = pos 0;
  avg_gain = pos 0;
  avg_loss = pos 0;
  last = record { ready = false; v = pos 0 };
}

abbrev pub candle : Candle ℤ
candle = record {
  market = "KRW-BTC";
  open_price = pos 90;
  high_price = pos 90;
  low_price = pos 70;
  close_price = pos 80;
  volume = pos 1;
  start_timestamp = "2024-01-01T00:00:00";
}

abbrev account : AccountSnapshot ℤ
account = record { krw_available = pos 10000; coin_available = pos 200 }

abbrev pub new_one : RsiMeanReversionStrategy ℤ
new_one = construct blank "KRW-BTC" params

-- In a position that was entered at 100.
abbrev pub holding : RsiMeanReversionStrategy ℤ
holding = record new_one {
  market = "KRW-BTC";
  state = State.in_position;
  pending_client_id = none;
  entry_price = some (pos 100);
  stop_price = some (pos 90);
  target_price = some (pos 115);
}

-- A buy `c1` is waited for.
abbrev pub waiting : RsiMeanReversionStrategy ℤ
waiting = record new_one {
  state = State.pending_entry;
  pending_client_id = some "c1";
  pending_filled_volume = pos 0;
  pending_cost_sum = pos 0;
  entry_price = none;
  stop_price = none;
  target_price = none;
}

pub holding-IsCoherent : IsCoherent holding
holding-IsCoherent = record { waits = refl; unpriced = refl; stops = refl; targets = refl }

pub waiting-IsCoherent : IsCoherent waiting
waiting-IsCoherent = record { waits = refl; unpriced = refl; stops = refl; targets = refl }

abbrev fills : List (FillEvent ℤ)
fills =
    record {
      identifier = "c1";
      position = OrderPosition.bid;
      fill_price = pos 100;
      filled_volume = pos 3;
    }
    ∷ record {
      identifier = "c1";
      position = OrderPosition.bid;
      fill_price = pos 104;
      filled_volume = pos 1;
    }
    ∷ []

abbrev filled : OrderStatusEvent ℤ
filled = record {
  identifier = "c1";
  status = OrderStatus.filled;
  position = OrderPosition.bid;
  executed_volume = pos 4;
  remaining_volume = pos 0;
  executed_funds = pos 404;
  position_effect = PositionEffect.opened;
}

Reach-IsCoherent_example :
    IsCoherent
      (on_submit_failed (on_candle cfg "uuid" candle account (construct blank "KRW-BTC" params)).1)
Reach-IsCoherent_example = Reach-IsCoherent cfg blank "KRW-BTC" params (
    Reach.next
      (Reach.next Reach.here (Step.closes (construct blank "KRW-BTC" params) "uuid" candle account))
      (Step.fails (on_candle cfg "uuid" candle account (construct blank "KRW-BTC" params)).1))

orders_one_at_a_time_example :
    (let r = on_candle cfg "uuid" candle account holding in Answers holding r.0.order r.1)
    × (let r = on_intrabar_candle cfg "uuid" (pos 80) account holding in
        Answers holding r.0.order r.1)
orders_one_at_a_time_example =
    orders_one_at_a_time cfg "uuid" candle (pos 80) account holding refl holding-IsCoherent

order_ends_example :
    let (signals, s') = on_order_update 7 filled waiting in
    let ends = is_mine (some "c1") "c1" && is_done OrderStatus.filled in
    (s'.pending_client_id ≡ (if ends then none else some "c1"))
    × (s'.state ≡ (
        if ends
        then state_after State.pending_entry PositionEffect.opened
        else State.pending_entry))
    × (length signals ≤ (if ends then 1 else 0))
order_ends_example = order_ends 7 filled waiting

-- The stop at 90 is reached.
abbrev stopped : Decision ℤ × RsiMeanReversionStrategy ℤ
stopped = on_intrabar_candle cfg "uuid" (pos 80) account holding

asks_to_sell :
    stopped.0.order
    ≡ some (record (make_market_sell_by_volume (pos 200) "exit_stop" holding) {
      identifier = (make_identifier "uuid" "exit_stop" holding).0;
    })
unfolding on_intrabar_candle make_market_sell_by_volume make_identifier
asks_to_sell = refl

failed_submit_example : IsBack holding (on_submit_failed stopped.1)
failed_submit_example =
    failed_submit holding holding stopped.1
      (Asks.while_moving cfg "uuid" (pos 80) account _ asks_to_sell)

entry_is_mean_example :
    (on_order_update 7 filled (fill_all fills waiting)).1.entry_price
    ≡ some (cost_of (lit 0) fills ⊘ volume_of (lit 0) fills)
entry_is_mean_example =
    entry_is_mean 7 filled "c1" fills waiting refl refl refl refl ((refl, refl), ((refl, refl), tt))
      refl refl refl refl refl
