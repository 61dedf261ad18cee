-- ===== src/Upbit/Tests.antt =====
-- The parsers' theorems at a message of a trade and at a unit of three minutes, with a small model of JSON.
use coin_bot.Base.{
  ℕ, String, ◌<>◌, Bool, true, false, Option, none, some, [], ◌∷◌, ◌≡◌, refl, arith, List,
}
use coin_bot.Base.Dict.{Dict, lookup}
use coin_bot.Base.Text.{show}
use coin_bot.Double.Int.{ℤ, pos, int_double}
use coin_bot.Json.{Json}
use coin_bot.EventRouter.Extract.{strip_key}
use coin_bot.Engine.Tests.{cfg}
use Prim.Native.Char.{code}
use coin_bot.Domain.OrderTypes.{OrderPosition, OrderType}
use coin_bot.Domain.Order.{OrderRequest, volume_size}
use coin_bot.Engine.Request.{validate_request}
use coin_bot.Rest.{response}
use coin_bot.Url.{encode_component}
use coin_bot.Upbit.Dto.{UpbitMyOrderDto}
use coin_bot.Upbit.MyOrder.{to_snapshot}
use coin_bot.Upbit.Answers.{Side, OrdState, OrderResponseDto}
use coin_bot.Upbit.OpenOrders.{order_of}
use coin_bot.Upbit.SameOrder.{SameOrder, SameSide, SameState, SameRequest, order_of-to_snapshot}
use coin_bot.Upbit.Exchange.{
  Client, reply, OrderPayloadFields, prepare_order, order_request, trim, make_query_strings,
}
use coin_bot.Upbit.Accepted.{Fits, accepted_is_sent}
use coin_bot.Upbit.Signed.{plain_query, hash_is_plain}
use coin_bot.Upbit.Messages.{digits_value, parse_my_order, parse_minute_candle_unit}
use coin_bot.Upbit.Told.{IsMessage, parse_my_order-IsMessage}
use coin_bot.Upbit.MinuteUnit.{parse-show}

pub data Leaf : Type 0 where
  text : String → Leaf
  number : ℤ → Leaf
  whole : ℕ → Leaf
  truth : Bool → Leaf

pub data Node : Type 0 where
  leaf : Leaf → Node
  fields : Dict Leaf → Node

abbrev find_leaf : Option Leaf → Option Node
find_leaf none = none
find_leaf (some l) = some (leaf l)

abbrev find_in : String → Node → Option Node
find_in key (leaf l) = none
find_in key (fields m) = find_leaf (lookup key m)

abbrev is_fields : Node → Bool
is_fields (leaf l) = false
is_fields (fields m) = true

abbrev text_of : Node → Option String
text_of (leaf (text s)) = some s
text_of other = none

abbrev number_of : Node → Option ℤ
number_of (leaf (number x)) = some x
number_of other = none

abbrev whole_of : Node → Option ℕ
whole_of (leaf (whole n)) = some n
whole_of other = none

abbrev truth_of : Node → Option Bool
truth_of (leaf (truth b)) = some b
truth_of other = none

-- A library that knows the texts that `messages` lists.
abbrev pub json_of : Dict Node → Json Node ℤ
json_of messages = record {
  parse = λ s. lookup s messages;
  is_object = is_fields;
  find = find_in;
  is_null = λ v. false;
  items = λ v. none;
  get_text = text_of;
  get_double = number_of;
  get_int = whole_of;
  get_bool = truth_of;
}

-- A trade of 30 coins at 100 of the order `u1`.
abbrev pub traded : Node
traded = fields (
    ("type", text "myOrder")
    ∷ ("code", text "KRW-BTC")
    ∷ ("uuid", text "u1")
    ∷ ("ask_bid", text "BID")
    ∷ ("order_type", text "price")
    ∷ ("state", text "trade")
    ∷ ("price", number (pos 100))
    ∷ ("volume", number (pos 30))
    ∷ ("executed_volume", number (pos 30))
    ∷ ("executed_funds", number (pos 3000))
    ∷ ("trade_uuid", text "t1")
    ∷ ("trade_fee", number (pos 3))
    ∷ [])

parse_my_order-IsMessage_example : IsMessage (parse_my_order (json_of (("m", traded) ∷ [])) cfg "m")
parse_my_order-IsMessage_example = parse_my_order-IsMessage (json_of (("m", traded) ∷ [])) cfg "m"

parse-show_example : parse_minute_candle_unit ("candle." <> show 3 <> "m") ≡ some 3
parse-show_example = parse-show 3 (omega arith) (omega arith)

short_unit : parse_minute_candle_unit "candle.15m" ≡ some 15
unfolding parse_minute_candle_unit strip_key
short_unit = refl

-- Whole numbers are read from their digits.
abbrev whole_number : String → Option ℤ
whole_number s = elim (digits_value 0 s) [ none ↦ none | some n ↦ some (pos n) ]

-- The same order, half of which was sold: as the socket tells it, and as the query answers.
abbrev told : UpbitMyOrderDto ℤ
told = record {
  type = "myOrder";
  code = "KRW-BTC";
  uuid = "u1";
  ask_bid = "ASK";
  order_type = "market";
  state = "wait";
  price = pos 0;
  volume = pos 10;
  remaining_volume = pos 5;
  executed_volume = pos 5;
  trades_count = 1;
  reserved_fee = pos 0;
  remaining_fee = pos 0;
  paid_fee = pos 2;
  locked = pos 5;
  executed_funds = pos 500;
  trade_uuid = none;
  trade_fee = none;
  is_maker = none;
  identifier = some "c1";
  trade_timestamp = none;
  order_timestamp = some 1700000000000;
  timestamp = none;
}

abbrev answered : OrderResponseDto
answered = record {
  market = "KRW-BTC";
  uuid = "u1";
  side = Side.ask;
  ord_type = "market";
  price = none;
  volume = some "10";
  state = OrdState.wait;
  created_at = "2023-11-14T22:13:20+09:00";
  remaining_volume = some "5";
  executed_volume = "5";
  executed_funds = some "500";
  reserved_fee = "0";
  remaining_fee = "0";
  paid_fee = "2";
  locked = "5";
  prevented_volume = "0";
  prevented_locked = none;
  trades_count = 1;
  identifier = some "c1";
  trades = [];
}

told-answered : SameOrder whole_number told answered
unfolding digits_value
told-answered = record {
  market = refl;
  uuid = refl;
  identifier = refl;
  ord_type = refl;
  side = SameSide.asks;
  state = SameState.waits;
  trades = refl;
  amounts = record {
    remaining = "5";
    executed = "500";
    left = refl;
    spent = refl;
    executed_volume = record { given = refl; value = refl };
    remaining_volume = record { given = refl; value = refl };
    executed_funds = record { given = refl; value = refl };
    reserved_fee = record { given = refl; value = refl };
    remaining_fee = record { given = refl; value = refl };
    paid_fee = record { given = refl; value = refl };
    locked = record { given = refl; value = refl };
  };
  request = SameRequest.sell "10" refl refl refl refl (record { given = refl; value = refl });
}

order_of-to_snapshot_example :
    order_of whole_number answered ≡ record (to_snapshot told) { created_at = answered.created_at }
order_of-to_snapshot_example = order_of-to_snapshot whole_number told answered told-answered

abbrev byte_codes : String → List ℕ
byte_codes String.[] = []
byte_codes (String.◌∷◌ c s) = code c ∷ byte_codes s

-- A client whose requests are answered by an acceptance.
abbrev client : Client Node ℤ
client = record {
  json = json_of [];
  send = λ req. response (record { status = 201; headers = []; body = "" });
  sign = λ text. "Bearer";
  dump = λ params. "{}";
  bytes = byte_codes;
  fixed = λ n v. "10.50";
  number = whole_number;
}

abbrev sell : OrderRequest ℤ
sell = record {
  market = "KRW-BTC";
  position = OrderPosition.ask;
  type = OrderType.market;
  size = volume_size (pos 10);
  price = none;
  strategy_id = "s";
  identifier = "c1";
  client_tag = "t";
}

accepted : validate_request sell ≡ true
unfolding validate_request
accepted = refl

accepted_is_sent_example :
    (fields : OrderPayloadFields) × (prepare_order client sell
      ≡ reply (order_request client sell fields))
    × Fits client sell fields
accepted_is_sent_example = accepted_is_sent client sell accepted

trimmed : trim "10.50" ≡ "10.5"
unfolding trim
trimmed = refl

-- The identifier `c:1` of an order, which is sent as `c%3A1`.
abbrev identifier_param : List (List ℕ × List ℕ)
identifier_param = (b'i' ∷ [], b'c' ∷ b':' ∷ b'1' ∷ []) ∷ []

encoded :
    (make_query_strings identifier_param).encoded
    ≡ b'i' ∷ b'=' ∷ b'c' ∷ b'%' ∷ b'3' ∷ b'A' ∷ b'1' ∷ []
unfolding make_query_strings encode_component
encoded = refl

hash_is_plain_example : (make_query_strings identifier_param).hash ≡ plain_query identifier_param
hash_is_plain_example =
    hash_is_plain identifier_param
      (((refl, tt), (omega arith, (omega arith, (omega arith, tt)))), tt)
