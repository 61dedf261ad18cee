-- ===== src/Upbit/Dto.antt =====
-- api/upbit/dto: the exchange's messages, field by field, and how they are read from JSON. The fields of a
-- candle that `from_json` does not fill are left out.
use coin_bot.Base.{ℕ, String, Bool, Option, none, some}
use coin_bot.Double.{Double, lit}
use coin_bot.Json.{Json, ◌>>=◌, member, member_or, optional_member}

pub record UpbitMyOrderDto (D : Type 0) : Type 0 where
  pub type : String
  pub code : String
  pub uuid : String
  pub ask_bid : String
  pub order_type : String
  pub state : String
  pub price : D
  pub volume : D
  pub remaining_volume : D
  pub executed_volume : D
  pub trades_count : ℕ
  pub reserved_fee : D
  pub remaining_fee : D
  pub paid_fee : D
  pub locked : D
  pub executed_funds : D
  pub trade_uuid : Option String
  pub trade_fee : Option D
  pub is_maker : Option Bool
  pub identifier : Option String
  pub trade_timestamp : Option ℕ
  pub order_timestamp : Option ℕ
  pub timestamp : Option ℕ

pub record CandleDtoMinute (D : Type 0) : Type 0 where
  pub market : String
  pub opening_price : D
  pub high_price : D
  pub low_price : D
  pub trade_price : D
  pub candle_acc_trade_volume : D
  pub candle_date_time_kst : String

module _ {J D : Type 0} (json : Json J D) ⦃d : Double D⦄ where
  -- `from_json` of a `UpbitMyOrderDto`
  unfoldable pub my_order_dto : J → Option (UpbitMyOrderDto D)
  my_order_dto j = do
    type ← member json json.get_text "type" j
    code ← member json json.get_text "code" j
    uuid ← member json json.get_text "uuid" j
    ask_bid ← member json json.get_text "ask_bid" j
    order_type ← member json json.get_text "order_type" j
    state ← member json json.get_text "state" j
    price ← member_or json json.get_double (lit 0) "price" j
    volume ← member_or json json.get_double (lit 0) "volume" j
    remaining_volume ← member_or json json.get_double (lit 0) "remaining_volume" j
    executed_volume ← member_or json json.get_double (lit 0) "executed_volume" j
    trades_count ← member_or json json.get_int 0 "trades_count" j
    reserved_fee ← member_or json json.get_double (lit 0) "reserved_fee" j
    remaining_fee ← member_or json json.get_double (lit 0) "remaining_fee" j
    paid_fee ← member_or json json.get_double (lit 0) "paid_fee" j
    locked ← member_or json json.get_double (lit 0) "locked" j
    executed_funds ← member_or json json.get_double (lit 0) "executed_funds" j
    trade_uuid ← optional_member json json.get_text "trade_uuid" j
    trade_fee ← optional_member json json.get_double "trade_fee" j
    is_maker ← optional_member json json.get_bool "is_maker" j
    identifier ← optional_member json json.get_text "identifier" j
    trade_timestamp ← optional_member json json.get_int "trade_timestamp" j
    order_timestamp ← optional_member json json.get_int "order_timestamp" j
    timestamp ← optional_member json json.get_int "timestamp" j
    some (record {
      type = type;
      code = code;
      uuid = uuid;
      ask_bid = ask_bid;
      order_type = order_type;
      state = state;
      price = price;
      volume = volume;
      remaining_volume = remaining_volume;
      executed_volume = executed_volume;
      trades_count = trades_count;
      reserved_fee = reserved_fee;
      remaining_fee = remaining_fee;
      paid_fee = paid_fee;
      locked = locked;
      executed_funds = executed_funds;
      trade_uuid = trade_uuid;
      trade_fee = trade_fee;
      is_maker = is_maker;
      identifier = identifier;
      trade_timestamp = trade_timestamp;
      order_timestamp = order_timestamp;
      timestamp = timestamp;
    })

  -- `from_json` of a `CandleDtoMinute`; a market that is missing stays empty.
  unfoldable pub candle_market : J → Option String
  candle_market j = elim (json.find "market" j) [
    | some v ↦ json.get_text v
    | none ↦ elim (json.find "code" j) [ some v ↦ json.get_text v | none ↦ some "" ]
  ]

  unfoldable pub candle_dto_minute : J → Option (CandleDtoMinute D)
  unfolding candle_market
  candle_dto_minute j = do
    market ← candle_market j
    opening_price ← member json json.get_double "opening_price" j
    high_price ← member json json.get_double "high_price" j
    low_price ← member json json.get_double "low_price" j
    trade_price ← member json json.get_double "trade_price" j
    candle_acc_trade_volume ← member json json.get_double "candle_acc_trade_volume" j
    candle_date_time_kst ← member json json.get_text "candle_date_time_kst" j
    some (record {
      market = market;
      opening_price = opening_price;
      high_price = high_price;
      low_price = low_price;
      trade_price = trade_price;
      candle_acc_trade_volume = candle_acc_trade_volume;
      candle_date_time_kst = candle_date_time_kst;
    })
