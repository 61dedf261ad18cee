-- ===== src/Strategy/Types.antt =====
-- trading/strategies/StrategyTypes.h: what goes into the strategy and what comes out of it.
use coin_bot.Base.{ℕ, String, Bool, true, false, Option, none, some, is_some}
use coin_bot.Double.{Double, ◌<?◌, lit}
use coin_bot.Domain.OrderTypes.{OrderPosition, OrderStatus, PositionEffect}
use coin_bot.Domain.Order.{OrderRequest}
use coin_bot.Indicators.{Value, not_ready}

pub record AccountSnapshot (D : Type 0) : Type 0 where
  pub krw_available : D
  pub coin_available : D

pub record PositionSnapshot (D : Type 0) : Type 0 where
  pub coin : D
  pub avg_entry_price : D

pub record FillEvent (D : Type 0) : Type 0 where
  pub identifier : String
  pub position : OrderPosition
  pub fill_price : D
  pub filled_volume : D

pub record OrderStatusEvent (D : Type 0) : Type 0 where
  pub identifier : String
  pub status : OrderStatus
  pub position : OrderPosition
  pub executed_volume : D
  pub remaining_volume : D
  pub executed_funds : D
  pub position_effect : PositionEffect

pub record Decision (D : Type 0) : Type 0 where
  pub order : Option (OrderRequest D)
  pub is_no_action : Bool

pub record Snapshot (D : Type 0) : Type 0 where
  pub close : D
  pub rsi : Value D
  pub close_n : Value D
  pub volatility : Value D
  pub trend_ready : Bool
  pub trend_strength : D
  pub market_ok : Bool

pub data SignalSide : Type 0 where
  buy sell : SignalSide

pub record SignalRecord (D : Type 0) : Type 0 where
  pub market : String
  pub identifier : String
  pub side : SignalSide
  pub price : D
  pub volume : D
  pub krw_amount : D
  pub stop_price : Option D
  pub target_price : Option D
  pub rsi : Option D
  pub volatility : Option D
  pub trend_strength : Option D
  pub is_partial : ℕ
  pub exit_reason : String
  pub ts_ms : ℕ

module _ {D : Type 0} where
  abbrev pub no_action : Decision D
  no_action = record { order = none; is_no_action = true }

  abbrev pub submit : OrderRequest D → Decision D
  submit req = record { order = some req; is_no_action = false }

  abbrev pub has_order : Decision D → Bool
  has_order d = is_some d.order

module _ {D : Type 0} ⦃d : Double D⦄ where
  abbrev pub can_buy : AccountSnapshot D → Bool
  can_buy a = lit 0 <? a.krw_available

  abbrev pub can_sell : AccountSnapshot D → Bool
  can_sell a = lit 0 <? a.coin_available

  abbrev pub has_position : PositionSnapshot D → Bool
  has_position p = lit 0 <? p.coin

  -- `Snapshot{}` with a close
  abbrev pub bare_snapshot : D → Snapshot D
  bare_snapshot close = record {
    close = close;
    rsi = not_ready;
    close_n = not_ready;
    volatility = not_ready;
    trend_ready = false;
    trend_strength = lit 0;
    market_ok = false;
  }
