-- ===== src/Upbit/OpenOrders.antt =====
-- api/upbit/mappers/OpenOrdersMapper.h and AccountMapper.h. What `strtod` and `stod` read of a text is an
-- argument: `none` if it is no number, or one out of range.
use coin_bot.Base.{
  String, ◌||◌, Option, none, some, List, [], ◌∷◌, map, if◌then◌else◌, is_empty, str_eq, value_or,
  ◌++◌, length, ◌==◌,
}
use coin_bot.Double.{Double, ◌⊕◌, lit}
use coin_bot.Domain.OrderTypes.{OrderPosition, OrderType, OrderStatus}
use coin_bot.Domain.Order.{Order}
use coin_bot.Domain.Account.{Account, Position}
use coin_bot.Upbit.Answers.{
  Side, OrdState, AccountDto, ArrayOfTrade, OrderResponseDto, WaitOrderResponseDto,
}

unfoldable pub to_domain_position : Side → OrderPosition
to_domain_position Side.bid = OrderPosition.bid
to_domain_position Side.ask = OrderPosition.ask

unfoldable pub to_domain_order_type : String → OrderType
to_domain_order_type ord_type =
    if str_eq ord_type "limit" || str_eq ord_type "best" then OrderType.limit else OrderType.market

unfoldable pub to_domain_status : OrdState → OrderStatus
to_domain_status OrdState.wait = OrderStatus.open_
to_domain_status OrdState.watch = OrderStatus.pending
to_domain_status OrdState.done = OrderStatus.filled
to_domain_status OrdState.cancel = OrderStatus.canceled

module _ {D : Type 0} (number : String → Option D) ⦃d : Double D⦄ where
  -- `parseDoubleOr`, and `toDoubleOrZero` with 0
  unfoldable pub parse_double_or : String → D → D
  parse_double_or s fallback = if is_empty s then fallback else value_or (number s) fallback

  unfoldable pub parse_opt_double : Option String → Option D
  unfolding parse_double_or
  parse_opt_double none = none
  parse_opt_double (some s) = some (parse_double_or s (lit 0))

  -- The loop adds from the front.
  unfoldable pub sum_trade_funds : D → List ArrayOfTrade → D
  unfolding parse_double_or
  sum_trade_funds total [] = total
  sum_trade_funds total (t ∷ ts) = sum_trade_funds (total ⊕ parse_double_or t.funds (lit 0)) ts

  abbrev zero_or : Option String → D
  zero_or none = lit 0
  zero_or (some s) = parse_double_or s (lit 0)

  abbrev funds_or : List ArrayOfTrade → Option String → D
  funds_or trades none = sum_trade_funds (lit 0) trades
  funds_or trades (some s) = parse_double_or s (lit 0)

  -- `toDomain` of an `OrderResponseDto`
  unfoldable pub order_of : OrderResponseDto → Order D
  unfolding to_domain_position to_domain_order_type to_domain_status parse_double_or
      parse_opt_double sum_trade_funds
  order_of r =
      let by_amount = str_eq r.ord_type "price" in
      record {
        market = r.market;
        identifier = r.identifier;
        id = r.uuid;
        position = to_domain_position r.side;
        type = to_domain_order_type r.ord_type;
        price = if by_amount then none else parse_opt_double r.price;
        volume = if by_amount then none else parse_opt_double r.volume;
        requested_amount = if by_amount then parse_opt_double r.price else none;
        executed_volume = parse_double_or r.executed_volume (lit 0);
        remaining_volume = zero_or r.remaining_volume;
        trades_count = if r.trades_count == 0 then length r.trades else r.trades_count;
        reserved_fee = parse_double_or r.reserved_fee (lit 0);
        paid_fee = parse_double_or r.paid_fee (lit 0);
        remaining_fee = parse_double_or r.remaining_fee (lit 0);
        locked = parse_double_or r.locked (lit 0);
        executed_funds = funds_or r.trades r.executed_funds;
        status = to_domain_status r.state;
        created_at = r.created_at;
      }

  -- `toDomain` of a `WaitOrderResponseDto`
  unfoldable pub open_order_of : WaitOrderResponseDto → Order D
  unfolding to_domain_position to_domain_order_type to_domain_status parse_double_or
      parse_opt_double
  open_order_of r =
      let by_amount = str_eq r.ord_type "price" in
      record {
        market = r.market;
        identifier = r.identifier;
        id = r.uuid;
        position = to_domain_position r.side;
        type = to_domain_order_type r.ord_type;
        price = if by_amount then none else parse_opt_double r.price;
        volume = if by_amount then none else parse_opt_double r.volume;
        requested_amount = if by_amount then parse_opt_double r.price else none;
        executed_volume = parse_double_or r.executed_volume (lit 0);
        remaining_volume = parse_double_or r.remaining_volume (lit 0);
        trades_count = r.trades_count;
        reserved_fee = parse_double_or r.reserved_fee (lit 0);
        paid_fee = parse_double_or r.paid_fee (lit 0);
        remaining_fee = parse_double_or r.remaining_fee (lit 0);
        locked = parse_double_or r.locked (lit 0);
        executed_funds = parse_double_or r.executed_funds (lit 0);
        status = to_domain_status r.state;
        created_at = r.created_at;
      }

  -- `toDomain` of a `WaitOrdersResponseDto`
  unfoldable pub open_orders_of : List WaitOrderResponseDto → List (Order D)
  unfolding open_order_of
  open_orders_of rs = map open_order_of rs

  unfoldable pub position_of : AccountDto → Position D
  unfolding parse_double_or
  position_of row = record {
    currency = row.currency;
    free = parse_double_or row.balance (lit 0);
    avg_buy_price = parse_double_or row.avg_buy_price (lit 0);
    unit_currency = row.unit_currency;
  }

  -- One row of `toDomain` of an `AccountsDto`; KRW is kept apart as well.
  unfoldable pub add_row : AccountDto → Account D → Account D
  unfolding position_of parse_double_or
  add_row row a =
      let krw = str_eq row.currency "KRW" in
      record a {
        krw_free = if krw then parse_double_or row.balance (lit 0) else a.krw_free;
        krw_locked = if krw then parse_double_or row.locked (lit 0) else a.krw_locked;
        positions = a.positions ++ (position_of row ∷ []);
      }

  unfoldable pub add_rows : List AccountDto → Account D → Account D
  unfolding add_row
  add_rows [] a = a
  add_rows (row ∷ rows) a = add_rows rows (add_row row a)

  unfoldable pub account_of : List AccountDto → Account D
  unfolding add_rows
  account_of rows = add_rows rows (record {
    id = "inguk";
    krw_free = lit 0;
    krw_locked = lit 0;
    positions = [];
    total_asset_value = lit 0;
  })
