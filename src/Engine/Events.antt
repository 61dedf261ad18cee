-- ===== src/Engine/Events.antt =====
-- engine/EngineEvents.h and EngineResult.h: what the engine reports.
use coin_bot.Base.{String, Bool, Option}
use coin_bot.Domain.OrderTypes.{OrderPosition, OrderStatus, PositionEffect}
use coin_bot.Domain.Order.{Order, MyTrade}
use coin_bot.Domain.Account.{Account}

pub record EngineFillEvent (D : Type 0) : Type 0 where
  pub identifier : String
  pub order_uuid : String
  pub trade_uuid : String
  pub position : OrderPosition
  pub fill_price : D
  pub filled_volume : D

pub record EngineOrderStatusEvent (D : Type 0) : Type 0 where
  pub identifier : String
  pub order_uuid : String
  pub status : OrderStatus
  pub position : OrderPosition
  pub executed_volume : D
  pub remaining_volume : D
  pub executed_funds : D
  pub position_effect : PositionEffect

pub data EngineEvent (D : Type 0) : Type 0 where
  fill : EngineFillEvent D → EngineEvent D
  order_status : EngineOrderStatusEvent D → EngineEvent D

pub data EngineErrorCode : Type 0 where
  none invalid_order_id insufficient_funds market_not_supported order_rejected internal_error :
      EngineErrorCode

-- The message of a failure is text for the log, and is not modelled.
pub record EngineResult (D : Type 0) : Type 0 where
  pub success : Bool
  pub code : EngineErrorCode
  pub order : Option (Order D)
  pub my_trade : Option (MyTrade D)
  pub account : Option (Account D)
