-- ===== src/Upbit/MyOrder.antt =====
-- api/upbit/mappers/MyOrderMapper.h: the events that a message about an own order becomes.

use coin_bot.Base.{
  ℕ, String, not, ◌&&◌, ◌||◌, Option, none, some, List, [], ◌∷◌, ◌++◌, if◌then◌else◌, str_eq,
  value_or,
}
use coin_bot.Base.Text.{show}
use coin_bot.Double.{Double, ◌⊗◌}
use coin_bot.Domain.OrderTypes.{OrderPosition, OrderType, OrderStatus, is_bid, is_limit}
use coin_bot.Domain.Order.{Order, MyTrade}
use coin_bot.Domain.Account.{AppConfig}
use coin_bot.Upbit.Dto.{UpbitMyOrderDto}

-- `std::variant<core::Order, core::MyTrade>`
pub data MyOrderEvent (D : Type 0) : Type 0 where
  order_event : Order D → MyOrderEvent D
  trade_event : MyTrade D → MyOrderEvent D

unfoldable pub to_side : String → OrderPosition
to_side ask_bid = if str_eq ask_bid "ASK" then OrderPosition.ask else OrderPosition.bid

unfoldable pub to_order_type : String → OrderType
to_order_type order_type =
    if str_eq order_type "limit" || str_eq order_type "best"
    then OrderType.limit
    else OrderType.market

unfoldable pub to_order_status : String → OrderStatus
to_order_status state =
    if str_eq state "wait"
    then OrderStatus.open_
    else if str_eq state "watch"
    then OrderStatus.pending
    else if str_eq state "trade"
    then OrderStatus.open_
    else if str_eq state "done"
    then OrderStatus.filled
    else if str_eq state "cancel"
    then OrderStatus.canceled
    else if str_eq state "prevented"
    then OrderStatus.canceled
    else OrderStatus.rejected

unfoldable pub created_at_of : Option ℕ → Option ℕ → String
created_at_of (some t) other = show t
created_at_of none (some t) = show t
created_at_of none none = ""

module _ {D : Type 0} ⦃d : Double D⦄ where
  unfoldable pub to_trade : AppConfig D → UpbitMyOrderDto D → String → MyTrade D
  unfolding to_side
  to_trade cfg m trade_uuid =
      let funds = m.price ⊗ m.volume in
      record {
        order_uuid = m.uuid;
        trade_uuid = trade_uuid;
        market = m.code;
        side = to_side m.ask_bid;
        price = m.price;
        volume = m.volume;
        executed_funds = funds;
        fee = value_or m.trade_fee (funds ⊗ cfg.engine.default_trade_fee_rate);
        is_maker = m.is_maker;
        trade_timestamp_ms = value_or m.trade_timestamp 0;
        identifier = m.identifier;
        strategy_id = none;
        client_tag = none;
      }

  unfoldable pub to_snapshot : UpbitMyOrderDto D → Order D
  unfolding to_side to_order_type to_order_status created_at_of
  to_snapshot m =
      let position = to_side m.ask_bid in
      let type = to_order_type m.order_type in
      let told = not (str_eq m.state "trade") in
      record {
        market = m.code;
        identifier = m.identifier;
        id = m.uuid;
        position = position;
        type = type;
        price = if told && is_limit type then some m.price else none;
        volume = if told && (is_limit type || not (is_bid position)) then some m.volume else none;
        requested_amount =
            if told && not (is_limit type) && is_bid position then some m.price else none;
        executed_volume = m.executed_volume;
        remaining_volume = m.remaining_volume;
        trades_count = m.trades_count;
        reserved_fee = m.reserved_fee;
        paid_fee = m.paid_fee;
        remaining_fee = m.remaining_fee;
        locked = m.locked;
        executed_funds = m.executed_funds;
        status = to_order_status m.state;
        created_at = created_at_of m.order_timestamp m.timestamp;
      }

  unfoldable pub trades_of : AppConfig D → UpbitMyOrderDto D → Option String → List (MyOrderEvent D)
  unfolding to_trade
  trades_of cfg m none = []
  trades_of cfg m (some trade_uuid) =
      if str_eq m.state "trade" then trade_event (to_trade cfg m trade_uuid) ∷ [] else []

  unfoldable pub to_events : AppConfig D → UpbitMyOrderDto D → List (MyOrderEvent D)
  unfolding trades_of to_snapshot
  to_events cfg m = trades_of cfg m m.trade_uuid ++ (order_event (to_snapshot m) ∷ [])
