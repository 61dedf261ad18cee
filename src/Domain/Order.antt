-- ===== src/Domain/Order.antt =====
-- core/domain/Order.h, OrderRequest.h and MyTrade.h: orders, requests and fills.
use coin_bot.Base.{ℕ, String, Bool, Option, none}
use coin_bot.Double.{Double, ◌⊗◌}
use coin_bot.Domain.OrderTypes.{OrderPosition, OrderType, OrderStatus}

-- `std::variant<VolumeSize, AmountSize>`
pub data OrderSize (D : Type 0) : Type 0 where
  volume_size : D → OrderSize D
  amount_size : D → OrderSize D

pub record OrderRequest (D : Type 0) : Type 0 where
  pub market : String
  pub position : OrderPosition
  pub type : OrderType
  pub size : OrderSize D
  pub price : Option D
  pub strategy_id : String
  pub identifier : String
  pub client_tag : String

pub record Order (D : Type 0) : Type 0 where
  pub market : String
  pub identifier : Option String
  pub id : String
  pub position : OrderPosition
  pub type : OrderType
  pub price : Option D
  pub volume : Option D
  pub requested_amount : Option D
  pub executed_volume : D
  pub remaining_volume : D
  pub trades_count : ℕ
  pub reserved_fee : D
  pub paid_fee : D
  pub remaining_fee : D
  pub locked : D
  pub executed_funds : D
  pub status : OrderStatus
  pub created_at : String

pub record MyTrade (D : Type 0) : Type 0 where
  pub order_uuid : String
  pub trade_uuid : String
  pub market : String
  pub side : OrderPosition
  pub price : D
  pub volume : D
  pub executed_funds : D
  pub fee : D
  pub is_maker : Option Bool
  pub trade_timestamp_ms : ℕ
  pub identifier : Option String
  pub strategy_id : Option String
  pub client_tag : Option String

-- `makeMyTradeFromFill`
pub make_my_trade_from_fill :
    {D : Type 0} ⦃d : Double D⦄
    → (order_uuid trade_uuid market : String) → OrderPosition
    → (price volume fee : D) → ℕ
    → MyTrade D
make_my_trade_from_fill order_uuid trade_uuid market side price volume fee timestamp = record {
  order_uuid = order_uuid;
  trade_uuid = trade_uuid;
  market = market;
  side = side;
  price = price;
  volume = volume;
  executed_funds = price ⊗ volume;
  fee = fee;
  is_maker = none;
  trade_timestamp_ms = timestamp;
  identifier = none;
  strategy_id = none;
  client_tag = none;
}
