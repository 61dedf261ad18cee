-- ===== src/Upbit/SameOrder.antt =====
-- The mappers of MyOrderMapper.h and of OpenOrdersMapper.h on one order.
use coin_bot.Base.{
  String, true, false, Option, none, some, ◌≡◌, refl, ap, sym, ◌∙◌, inl, inr, Bool-cases, arith,
  if◌then◌else◌, is_empty, str_eq, length, ◌==◌, eq_iff,
}
use coin_bot.Double.{Double, lit}
use coin_bot.Domain.OrderTypes.{is_limit}
use coin_bot.Upbit.Answers.{Side, OrdState, OrderResponseDto}
use coin_bot.Upbit.OpenOrders.{
  to_domain_position, to_domain_order_type, to_domain_status, parse_double_or, parse_opt_double,
  order_of,
}
use coin_bot.Upbit.Dto.{UpbitMyOrderDto}
use coin_bot.Upbit.MyOrder.{to_side, to_order_type, to_order_status, to_snapshot}

-- The states that both tell.
pub data SameState : String → OrdState → Type 0 where
  waits : SameState "wait" OrdState.wait
  watches : SameState "watch" OrdState.watch
  ended : SameState "done" OrdState.done
  canceled : SameState "cancel" OrdState.cancel

-- The sides that both tell.
pub data SameSide : String → Side → Type 0 where
  bids : SameSide "BID" Side.bid
  asks : SameSide "ASK" Side.ask

to_side-SameSide : (s : String) (t : Side) → SameSide s t → to_side s ≡ to_domain_position t
unfolding to_side to_domain_position
to_side-SameSide s t bids = refl
to_side-SameSide s t asks = refl

to_order_status-SameState :
    (s : String) (t : OrdState)
    → SameState s t
    → (to_order_status s ≡ to_domain_status t) × (str_eq s "trade" ≡ false)
unfolding to_order_status to_domain_status
to_order_status-SameState s t waits = (refl, refl)
to_order_status-SameState s t watches = (refl, refl)
to_order_status-SameState s t ended = (refl, refl)
to_order_status-SameState s t canceled = (refl, refl)

module _ {D : Type 0} (number : String → Option D) ⦃d : Double D⦄ where
  -- The text is a number of the given value.
  pub record Tells (s : String) (x : D) : Type 0 where
    pub given : is_empty s ≡ false
    pub value : number s ≡ some x

  parse-Tells : (s : String) (x y : D) → Tells s x → parse_double_or number s y ≡ x
  unfolding parse_double_or
  parse-Tells s x y t = rw (t.given, t.value) refl

  -- The amounts that both tell.
  pub record SameAmounts (m : UpbitMyOrderDto D) (r : OrderResponseDto) : Type 0 where
    pub remaining : String
    pub executed : String
    pub left : r.remaining_volume ≡ some remaining
    pub spent : r.executed_funds ≡ some executed
    pub executed_volume : Tells r.executed_volume m.executed_volume
    pub remaining_volume : Tells remaining m.remaining_volume
    pub executed_funds : Tells executed m.executed_funds
    pub reserved_fee : Tells r.reserved_fee m.reserved_fee
    pub remaining_fee : Tells r.remaining_fee m.remaining_fee
    pub paid_fee : Tells r.paid_fee m.paid_fee
    pub locked : Tells r.locked m.locked

  -- What was requested, as either tells it: a limit, KRW to buy for, or coin to sell.
  pub data SameRequest (m : UpbitMyOrderDto D) (r : OrderResponseDto) : Type 0 where
    limit :
        (p v : String)
        → is_limit (to_order_type m.order_type) ≡ true
        → r.price ≡ some p
        → Tells p m.price
        → r.volume ≡ some v
        → Tells v m.volume
        → SameRequest m r
    buy :
        (p : String)
        → m.order_type ≡ "price"
        → m.ask_bid ≡ "BID"
        → r.price ≡ some p
        → Tells p m.price
        → SameRequest m r
    sell :
        (v : String)
        → m.order_type ≡ "market"
        → m.ask_bid ≡ "ASK"
        → r.price ≡ none
        → r.volume ≡ some v
        → Tells v m.volume
        → SameRequest m r

  -- The message and the answer are about the same order, at the same time.
  pub record SameOrder (m : UpbitMyOrderDto D) (r : OrderResponseDto) : Type 0 where
    pub market : r.market ≡ m.code
    pub uuid : r.uuid ≡ m.uuid
    pub identifier : r.identifier ≡ m.identifier
    pub ord_type : r.ord_type ≡ m.order_type
    pub side : SameSide m.ask_bid r.side
    pub state : SameState m.state r.state
    pub trades : (if r.trades_count == 0 then length r.trades else r.trades_count) ≡ m.trades_count
    pub amounts : SameAmounts m r
    pub request : SameRequest m r

  -- What the two orders say was requested.
  abbrev Requested : UpbitMyOrderDto D → OrderResponseDto → Type 0
  Requested m r =
      ((order_of number r).price ≡ (to_snapshot m).price)
      × ((order_of number r).volume ≡ (to_snapshot m).volume)
      × ((order_of number r).requested_amount ≡ (to_snapshot m).requested_amount)

  not_price : (s : String) → is_limit (to_order_type s) ≡ true → str_eq s "price" ≡ false
  unfolding to_order_type
  not_price s h = elim (Bool-cases (str_eq s "price")) [
    | inr e ↦ e
    | inl e ↦
        let same : s ≡ "price" = ground (arith, eq_iff s "price") in
        let contra : true ≡ false = sym h ∙ ap (λ x. is_limit (to_order_type x)) same in absurd cc
  ]

  asked_alike :
      (m : UpbitMyOrderDto D) (r : OrderResponseDto)
      → r.ord_type ≡ m.order_type
      → str_eq m.state "trade" ≡ false
      → SameRequest m r
      → Requested m r
  unfolding order_of to_snapshot parse_opt_double to_side to_order_type
  asked_alike m r type going (limit p v lim price tp volume tv) =
      let other : str_eq m.order_type "price" ≡ false = not_price m.order_type lim in
      rw
        (
          type,
          other,
          going,
          lim,
          price,
          volume,
          parse-Tells p m.price (lit 0) tp,
          parse-Tells v m.volume (lit 0) tv,
        )
        (refl, refl, refl)
  asked_alike m r type going (buy p order_type side price tp) =
      rw (type, order_type, side, going, price, parse-Tells p m.price (lit 0) tp) (refl, refl, refl)
  asked_alike m r type going (sell v order_type side price volume tv) =
      rw (type, order_type, side, going, price, volume, parse-Tells v m.volume (lit 0) tv)
        (refl, refl, refl)

  -- A message and an answer that are about the same order at the same time, in a state that both know,
  -- give the same order, whichever way the bot learns of it, but for the time of its creation, which they
  -- write differently.
  pub order_of-to_snapshot :
      (m : UpbitMyOrderDto D) (r : OrderResponseDto)
      → SameOrder m r
      → order_of number r ≡ record (to_snapshot m) { created_at = r.created_at }
  unfolding order_of to_snapshot to_domain_order_type to_order_type
  order_of-to_snapshot m r h =
      let (status, going) = to_order_status-SameState m.state r.state h.state in
      let (price, volume, amount) = asked_alike m r h.ord_type going h.request in
      let a = h.amounts in
      let side = to_side-SameSide m.ask_bid r.side h.side in
      let executed = parse-Tells r.executed_volume m.executed_volume (lit 0) a.executed_volume in
      let remaining = parse-Tells a.remaining m.remaining_volume (lit 0) a.remaining_volume in
      let funds = parse-Tells a.executed m.executed_funds (lit 0) a.executed_funds in
      let reserved = parse-Tells r.reserved_fee m.reserved_fee (lit 0) a.reserved_fee in
      let fee_left = parse-Tells r.remaining_fee m.remaining_fee (lit 0) a.remaining_fee in
      let paid = parse-Tells r.paid_fee m.paid_fee (lit 0) a.paid_fee in
      let locked = parse-Tells r.locked m.locked (lit 0) a.locked in
      let left = a.left in
      let spent = a.spent in
      let type : to_domain_order_type r.ord_type ≡ to_order_type m.order_type =
        ap to_order_type h.ord_type in
      let market = h.market in
      let uuid = h.uuid in let identifier = h.identifier in let trades = h.trades in grind arith
