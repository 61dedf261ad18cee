-- ===== src/Domain/OrderTypes.antt =====
-- core/domain/OrderTypes.h: the enumerations of orders, and the two tests of Order.h on a status.
use coin_bot.Base.{ℕ, String, Bool, true, false, ◌||◌, ◌==◌}

pub data OrderPosition : Type 0 where
  ask bid : OrderPosition

pub data OrderType : Type 0 where
  market limit : OrderType

pub data OrderStatus : Type 0 where
  new open_ pending filled canceled rejected : OrderStatus

pub data PositionEffect : Type 0 where
  unknown none opened reduced closed : PositionEffect

-- `operator==` of an `enum class` compares the underlying values.
abbrev pub status_value : OrderStatus → ℕ
status_value OrderStatus.new = 0
status_value OrderStatus.open_ = 1
status_value OrderStatus.pending = 2
status_value OrderStatus.filled = 3
status_value OrderStatus.canceled = 4
status_value OrderStatus.rejected = 5

abbrev pub same_status : OrderStatus → OrderStatus → Bool
same_status s t = status_value s == status_value t

abbrev pub is_bid : OrderPosition → Bool
is_bid OrderPosition.bid = true
is_bid OrderPosition.ask = false

abbrev pub is_limit : OrderType → Bool
is_limit OrderType.limit = true
is_limit OrderType.market = false

-- `to_string(OrderStatus)`; an `enum class` has no value outside its enumerators here.
pub to_string : OrderStatus → String
to_string OrderStatus.new = "New"
to_string OrderStatus.open_ = "Open"
to_string OrderStatus.pending = "Pending"
to_string OrderStatus.filled = "Filled"
to_string OrderStatus.canceled = "Canceled"
to_string OrderStatus.rejected = "Rejected"

-- `isOpen` and `isDone`
abbrev pub is_open : OrderStatus → Bool
is_open s =
    same_status s OrderStatus.new
    || same_status s OrderStatus.open_
    || same_status s OrderStatus.pending

abbrev pub is_done : OrderStatus → Bool
is_done s =
    same_status s OrderStatus.filled
    || same_status s OrderStatus.canceled
    || same_status s OrderStatus.rejected
