-- ===== src/Domain/Account.antt =====
-- core/domain/Account.h, Position.h and Candle.h, and the parts of util/Config.h that decide anything.
use coin_bot.Base.{ℕ, String, List}

pub record Position (D : Type 0) : Type 0 where
  pub currency : String
  pub free : D
  pub avg_buy_price : D
  pub unit_currency : String

pub record Account (D : Type 0) : Type 0 where
  pub id : String
  pub krw_free : D
  pub krw_locked : D
  pub positions : List (Position D)
  pub total_asset_value : D

pub record Candle (D : Type 0) : Type 0 where
  pub market : String
  pub open_price : D
  pub high_price : D
  pub low_price : D
  pub close_price : D
  pub volume : D
  pub start_timestamp : String

pub record StrategyConfig (D : Type 0) : Type 0 where
  pub min_notional_krw : D

pub record EngineConfig (D : Type 0) : Type 0 where
  pub max_seen_trades : ℕ
  pub max_private_batch : ℕ
  pub reserve_margin : D
  pub default_trade_fee_rate : D

pub record AccountConfig (D : Type 0) : Type 0 where
  pub coin_epsilon : D
  pub krw_dust_threshold : D
  pub init_dust_threshold_krw : D

-- `AppConfig::instance()`: an argument of what reads it.
pub record AppConfig (D : Type 0) : Type 0 where
  pub strategy : StrategyConfig D
  pub engine : EngineConfig D
  pub account : AccountConfig D
