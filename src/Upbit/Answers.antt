-- ===== src/Upbit/Answers.antt =====
-- api/upbit/dto/UpbitAssetOrderDtos.h: the exchange's answers about accounts and orders. `time_in_force` and
-- `smp_type`, which no mapper reads and whose reads never throw, are left out.
use coin_bot.Base.{ℕ, String, Bool, Option, none, some, List, [], if◌then◌else◌, str_eq}
use coin_bot.Json.{Json, ◌>>=◌, member, member_or, optional_member, each}

pub data Side : Type 0 where
  bid : Side
  ask : Side

pub data OrdState : Type 0 where
  wait : OrdState
  watch : OrdState
  done : OrdState
  cancel : OrdState

pub record AccountDto : Type 0 where
  pub currency : String
  pub balance : String
  pub locked : String
  pub avg_buy_price : String
  pub avg_buy_price_modified : Bool
  pub unit_currency : String

pub record ArrayOfTrade : Type 0 where
  pub market : String
  pub uuid : String
  pub price : String
  pub volume : String
  pub funds : String
  pub trend : String
  pub created_at : String
  pub side : Side

pub record OrderResponseDto : Type 0 where
  pub market : String
  pub uuid : String
  pub side : Side
  pub ord_type : String
  pub price : Option String
  pub volume : Option String
  pub state : OrdState
  pub created_at : String
  pub remaining_volume : Option String
  pub executed_volume : String
  pub executed_funds : Option String
  pub reserved_fee : String
  pub remaining_fee : String
  pub paid_fee : String
  pub locked : String
  pub prevented_volume : String
  pub prevented_locked : Option String
  pub trades_count : ℕ
  pub identifier : Option String
  pub trades : List ArrayOfTrade

pub record WaitOrderResponseDto : Type 0 where
  pub market : String
  pub uuid : String
  pub side : Side
  pub ord_type : String
  pub price : Option String
  pub volume : Option String
  pub state : OrdState
  pub created_at : String
  pub remaining_volume : String
  pub executed_volume : String
  pub executed_funds : String
  pub reserved_fee : String
  pub remaining_fee : String
  pub paid_fee : String
  pub locked : String
  pub prevented_volume : String
  pub prevented_locked : Option String
  pub trades_count : ℕ
  pub identifier : Option String

-- `NLOHMANN_JSON_SERIALIZE_ENUM`: a value that is none of the texts is the first of the list.
unfoldable pub side_text : Option String → Side
side_text none = Side.bid
side_text (some s) = if str_eq s "ask" then Side.ask else Side.bid

unfoldable pub state_text : Option String → OrdState
state_text none = OrdState.wait
state_text (some s) =
    if str_eq s "watch"
    then OrdState.watch
    else if str_eq s "done"
    then OrdState.done
    else if str_eq s "cancel"
    then OrdState.cancel
    else OrdState.wait

module _ {J D : Type 0} (json : Json J D) where
  unfoldable pub get_side : J → Option Side
  unfolding side_text
  get_side v = some (side_text (json.get_text v))

  unfoldable pub get_state : J → Option OrdState
  unfolding state_text
  get_state v = some (state_text (json.get_text v))

  unfoldable pub account_dto : J → Option AccountDto
  account_dto j = do
    currency ← member json json.get_text "currency" j
    balance ← member json json.get_text "balance" j
    locked ← member json json.get_text "locked" j
    avg_buy_price ← member json json.get_text "avg_buy_price" j
    avg_buy_price_modified ← member json json.get_bool "avg_buy_price_modified" j
    unit_currency ← member json json.get_text "unit_currency" j
    some (record {
      currency = currency;
      balance = balance;
      locked = locked;
      avg_buy_price = avg_buy_price;
      avg_buy_price_modified = avg_buy_price_modified;
      unit_currency = unit_currency;
    })

  -- `AccountsDto` is the list.
  unfoldable pub accounts_dto : J → Option (List AccountDto)
  unfolding account_dto
  accounts_dto j = json.items j >>= each account_dto

  unfoldable pub array_of_trade : J → Option ArrayOfTrade
  unfolding get_side
  array_of_trade j = do
    market ← member_or json json.get_text "" "market" j
    uuid ← member_or json json.get_text "" "uuid" j
    price ← member_or json json.get_text "" "price" j
    volume ← member_or json json.get_text "" "volume" j
    funds ← member_or json json.get_text "" "funds" j
    trend ← member_or json json.get_text "" "trend" j
    created_at ← member_or json json.get_text "" "created_at" j
    side ← member_or json get_side Side.bid "side" j
    some (record {
      market = market;
      uuid = uuid;
      price = price;
      volume = volume;
      funds = funds;
      trend = trend;
      created_at = created_at;
      side = side;
    })

  abbrev trades_in : J → Option (List ArrayOfTrade)
  trades_in v = json.items v >>= each array_of_trade

  unfoldable pub order_response_dto : J → Option OrderResponseDto
  unfolding get_side get_state array_of_trade
  order_response_dto j = do
    market ← member json json.get_text "market" j
    uuid ← member json json.get_text "uuid" j
    side ← member json get_side "side" j
    ord_type ← member json json.get_text "ord_type" j
    state ← member json get_state "state" j
    created_at ← member json json.get_text "created_at" j
    price ← optional_member json json.get_text "price" j
    volume ← optional_member json json.get_text "volume" j
    remaining_volume ← optional_member json json.get_text "remaining_volume" j
    executed_volume ← member_or json json.get_text "0" "executed_volume" j
    executed_funds ← optional_member json json.get_text "executed_funds" j
    reserved_fee ← member_or json json.get_text "0" "reserved_fee" j
    remaining_fee ← member_or json json.get_text "0" "remaining_fee" j
    paid_fee ← member_or json json.get_text "0" "paid_fee" j
    locked ← member_or json json.get_text "0" "locked" j
    prevented_volume ← member_or json json.get_text "0" "prevented_volume" j
    prevented_locked ← optional_member json json.get_text "prevented_locked" j
    trades_count ← member_or json json.get_int 0 "trades_count" j
    identifier ← optional_member json json.get_text "identifier" j
    trades ← member_or json trades_in [] "trades" j
    some (record {
      market = market;
      uuid = uuid;
      side = side;
      ord_type = ord_type;
      price = price;
      volume = volume;
      state = state;
      created_at = created_at;
      remaining_volume = remaining_volume;
      executed_volume = executed_volume;
      executed_funds = executed_funds;
      reserved_fee = reserved_fee;
      remaining_fee = remaining_fee;
      paid_fee = paid_fee;
      locked = locked;
      prevented_volume = prevented_volume;
      prevented_locked = prevented_locked;
      trades_count = trades_count;
      identifier = identifier;
      trades = trades;
    })

  unfoldable pub wait_order_response_dto : J → Option WaitOrderResponseDto
  unfolding get_side get_state
  wait_order_response_dto j = do
    market ← member json json.get_text "market" j
    uuid ← member json json.get_text "uuid" j
    side ← member json get_side "side" j
    ord_type ← member json json.get_text "ord_type" j
    price ← optional_member json json.get_text "price" j
    volume ← optional_member json json.get_text "volume" j
    state ← member json get_state "state" j
    created_at ← member json json.get_text "created_at" j
    remaining_volume ← member_or json json.get_text "0" "remaining_volume" j
    executed_volume ← member_or json json.get_text "0" "executed_volume" j
    executed_funds ← member_or json json.get_text "0" "executed_funds" j
    reserved_fee ← member_or json json.get_text "0" "reserved_fee" j
    locked ← member_or json json.get_text "0" "locked" j
    remaining_fee ← member_or json json.get_text "0" "remaining_fee" j
    paid_fee ← member_or json json.get_text "0" "paid_fee" j
    prevented_volume ← member_or json json.get_text "0" "prevented_volume" j
    prevented_locked ← optional_member json json.get_text "prevented_locked" j
    trades_count ← member_or json json.get_int 0 "trades_count" j
    identifier ← optional_member json json.get_text "identifier" j
    some (record {
      market = market;
      uuid = uuid;
      side = side;
      ord_type = ord_type;
      price = price;
      volume = volume;
      state = state;
      created_at = created_at;
      remaining_volume = remaining_volume;
      executed_volume = executed_volume;
      executed_funds = executed_funds;
      reserved_fee = reserved_fee;
      remaining_fee = remaining_fee;
      paid_fee = paid_fee;
      locked = locked;
      prevented_volume = prevented_volume;
      prevented_locked = prevented_locked;
      trades_count = trades_count;
      identifier = identifier;
    })

  -- `WaitOrdersResponseDto` is the list.
  unfoldable pub wait_orders_response_dto : J → Option (List WaitOrderResponseDto)
  unfolding wait_order_response_dto
  wait_orders_response_dto j = json.items j >>= each wait_order_response_dto
