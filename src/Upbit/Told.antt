-- ===== src/Upbit/Told.antt =====
-- The events that `parseMyOrder` gives.
use coin_bot.Base.{
  String, true, false, Option, none, some, List, [], ◌∷◌, ◌++◌, ◌≡◌, refl, sym, inl, inr, arith,
  Bool-cases, if◌then◌else◌, str_eq, eq_iff, subst,
}
use coin_bot.Double.{Double}
use coin_bot.Domain.Account.{AppConfig}
use coin_bot.Domain.OrderTypes.{is_done}
use coin_bot.Domain.Order.{Order, MyTrade}
use coin_bot.Json.{Json, ◌>>=◌}
use coin_bot.Upbit.Dto.{UpbitMyOrderDto, my_order_dto}
use coin_bot.Upbit.MyOrder.{
  MyOrderEvent, order_event, trade_event, to_events, to_snapshot, to_trade, to_order_status,
  trades_of,
}
use coin_bot.Upbit.Messages.{parse_my_order}

-- The lists of events that come of a message: none, an order alone, or a trade and then its order, which
-- goes on and does not tell what was requested.
pub data IsMessage {D : Type 0} : List (MyOrderEvent D) → Type 0 where
  silent : IsMessage []
  lone : (o : Order D) → IsMessage (order_event o ∷ [])
  pair :
      (t : MyTrade D) (o : Order D)
      → t.order_uuid ≡ o.id
      → t.market ≡ o.market
      → t.side ≡ o.position
      → is_done o.status ≡ false
      → o.price ≡ none
      → o.volume ≡ none
      → o.requested_amount ≡ none
      → IsMessage (trade_event t ∷ order_event o ∷ [])

module _ {D : Type 0} ⦃d : Double D⦄ where
  traded-IsMessage :
      (cfg : AppConfig D) (m : UpbitMyOrderDto D) (u : String)
      → str_eq m.state "trade" ≡ true
      → IsMessage (trade_event (to_trade cfg m u) ∷ order_event (to_snapshot m) ∷ [])
  unfolding to_snapshot to_trade to_order_status
  traded-IsMessage cfg m u e =
      let state : m.state ≡ "trade" = ground (arith, eq_iff m.state "trade") in
      pair (to_trade cfg m u) (to_snapshot m) refl refl refl (rw state refl) (rw state refl)
        (rw state refl) (rw state refl)

  trades_of-IsMessage :
      (cfg : AppConfig D) (m : UpbitMyOrderDto D) (u : Option String)
      → IsMessage (trades_of cfg m u ++ (order_event (to_snapshot m) ∷ []))
  unfolding trades_of
  trades_of-IsMessage cfg m none = lone (to_snapshot m)
  trades_of-IsMessage cfg m (some u) = elim (Bool-cases (str_eq m.state "trade")) [
    | inl f ↦
        subst
          (λ b. IsMessage (
            (if b then trade_event (to_trade cfg m u) ∷ [] else [])
            ++ (order_event (to_snapshot m) ∷ [])))
          (sym f) (traded-IsMessage cfg m u f)
    | inr f ↦
        subst
          (λ b. IsMessage (
            (if b then trade_event (to_trade cfg m u) ∷ [] else [])
            ++ (order_event (to_snapshot m) ∷ [])))
          (sym f) (lone (to_snapshot m))
  ]

  to_events-IsMessage : (cfg : AppConfig D) (m : UpbitMyOrderDto D) → IsMessage (to_events cfg m)
  unfolding to_events
  to_events-IsMessage cfg m = trades_of-IsMessage cfg m m.trade_uuid

module _ {J D : Type 0} (json : Json J D) ⦃d : Double D⦄ where
  -- Whatever text comes, the parser gives no event, the order alone, or a trade and then the order of
  -- that trade, of the same market and side; in the last case the order has not ended and tells no price,
  -- volume or amount that was requested, which are those of the trade in such a message.
  pub parse_my_order-IsMessage :
      (cfg : AppConfig D) (text : String) → IsMessage (parse_my_order json cfg text)
  unfolding parse_my_order
  parse_my_order-IsMessage cfg text = go (json.parse text >>= my_order_dto json)
    where
      go :
          (r : Option (UpbitMyOrderDto D))
          → IsMessage (elim r [ none ↦ [] | some m ↦ to_events cfg m ])
      go none = silent
      go (some m) = to_events-IsMessage cfg m
