-- ===== src/Upbit/Messages.antt =====
-- api/upbit/WsMessageParser.cpp and mappers/CandleMapper.h: messages of the exchange's sockets.
use Prim.Native.Char.{code}
use coin_bot.Base.{
  ℕ, ◌+◌, ◌-◌, ◌*◌, ◌^◌, String, Bool, not, ◌&&◌, Option, none, some, List, [], if◌then◌else◌,
  is_some, value_or, ltb, leb, ◌==◌,
}
use coin_bot.Double.{Double}
use coin_bot.Domain.Account.{AppConfig, Candle}
use coin_bot.Json.{Json, ◌>>=◌}
use coin_bot.EventRouter.Extract.{strip_key, text_length}
use coin_bot.Upbit.Dto.{CandleDtoMinute, my_order_dto, candle_dto_minute}
use coin_bot.Upbit.MyOrder.{MyOrderEvent, to_events}

unfoldable pub is_digit : ℕ → Bool
is_digit c = leb b'0' c && leb c b'9'

-- `std::from_chars` for a number without sign: all of the text is digits.
unfoldable pub digits_value : ℕ → String → Option ℕ
unfolding is_digit
digits_value acc String.[] = some acc
digits_value acc (String.◌∷◌ c s) =
    if is_digit (code c) then digits_value (acc * 10 + (code c - b'0')) s else none

-- A number of 32 bits that is more than 0. A text with a sign, one that is no number and one that is
-- out of range give nothing, as `unit <= 0` does.
unfoldable pub positive_int : String → Option ℕ
unfolding digits_value
positive_int s = do n ← digits_value 0 s; if ltb 0 n && ltb n (2 ^ 31) then some n else none

-- The text without its last character, if that is `mark`.
unfoldable pub strip_last : ℕ → String → Option String
strip_last mark String.[] = none
strip_last mark (String.◌∷◌ c String.[]) = if code c == mark then some "" else none
strip_last mark (String.◌∷◌ c (String.◌∷◌ e s)) = do
  t ← strip_last mark (String.◌∷◌ e s)
  some (String.◌∷◌ c t)

unfoldable pub parse_minute_candle_unit : String → Option ℕ
unfolding strip_last positive_int
parse_minute_candle_unit type = do
  rest ← strip_key "candle." type
  if leb (text_length rest) 1 then none else (do number ← strip_last b'm' rest; positive_int number)

pub record WsCandleResult (D : Type 0) : Type 0 where
  pub candle : Candle D
  pub unit_minutes : ℕ

-- What a parser of candles does: it gives one, gives none, or lets an exception out.
pub data Parsed (D : Type 0) : Type 0 where
  thrown : Parsed D
  dropped : Parsed D
  parsed : WsCandleResult D → Parsed D

module _ {D : Type 0} where
  -- `toDomain` of mappers/CandleMapper.h
  unfoldable pub to_candle : CandleDtoMinute D → Candle D
  to_candle m = record {
    market = m.market;
    open_price = m.opening_price;
    high_price = m.high_price;
    low_price = m.low_price;
    close_price = m.trade_price;
    volume = m.candle_acc_trade_volume;
    start_timestamp = m.candle_date_time_kst;
  }

module _ {J D : Type 0} (json : Json J D) ⦃d : Double D⦄ where
  unfoldable pub parse_my_order : AppConfig D → String → List (MyOrderEvent D)
  unfolding my_order_dto
  parse_my_order cfg text = elim (json.parse text >>= my_order_dto json) [
    | none ↦ []
    | some m ↦ to_events cfg m
  ]

  -- `j.value("type", "")`: a value that is no object, or a member that is no text, is an exception.
  unfoldable pub type_of : J → Option String
  type_of j =
      if json.is_object j
      then elim (json.find "type" j) [ none ↦ some "" | some v ↦ json.get_text v ]
      else none

  unfoldable pub candle_of : ℕ → String → J → Parsed D
  unfolding to_candle parse_minute_candle_unit
  candle_of fallback type j =
      if not (is_some (strip_key "candle" type)) then dropped else elim (candle_dto_minute json j) [
        | none ↦ dropped
        | some m ↦ parsed (record {
          candle = to_candle m;
          unit_minutes = value_or (parse_minute_candle_unit type) fallback;
        })
      ]

  unfoldable pub typed_candle : ℕ → J → Option String → Parsed D
  unfolding candle_of
  typed_candle fallback j none = thrown
  typed_candle fallback j (some type) = candle_of fallback type j

  unfoldable pub parse_candle : ℕ → String → Parsed D
  unfolding typed_candle type_of
  parse_candle fallback text = elim (json.parse text) [
    | none ↦ dropped
    | some j ↦ typed_candle fallback j (type_of j)
  ]
