-- ===== src/OrderStore/Tests.antt =====
-- The store's theorems at a store of two orders.
use coin_bot.Base.{
  String, true, none, some, [], ◌∷◌, ◌≡◌, refl, not, ◌&&◌, is_some, str_eq, if◌then◌else◌, ◌↔◌,
}
use coin_bot.Double.Int.{ℤ, pos}
use coin_bot.Domain.OrderTypes.{OrderPosition, OrderType, OrderStatus, is_open}
use coin_bot.Domain.Order.{Order}
use coin_bot.OrderStore.{OrderStore, add, get, update, erase, upsert, get_open_orders_by_market}
use coin_bot.OrderStore.Laws.{IsKeyed, ops-IsKeyed, get_after}
use coin_bot.OrderStore.Query.{In, get_open_orders_iff}

abbrev order_of : String → OrderStatus → Order ℤ
order_of order_uuid status = record {
  market = "KRW-BTC";
  identifier = none;
  id = order_uuid;
  position = OrderPosition.bid;
  type = OrderType.market;
  price = none;
  volume = none;
  requested_amount = some (pos 9000);
  executed_volume = pos 0;
  remaining_volume = pos 0;
  trades_count = 0;
  reserved_fee = pos 0;
  paid_fee = pos 0;
  remaining_fee = pos 0;
  locked = pos 0;
  executed_funds = pos 0;
  status = status;
  created_at = "";
}

abbrev first : Order ℤ
first = order_of "u1" OrderStatus.pending

abbrev second : Order ℤ
second = order_of "u2" OrderStatus.filled

abbrev store : OrderStore ℤ
store = record { orders = ("u1", first) ∷ ("u2", second) ∷ [] }

store-IsKeyed : IsKeyed store
store-IsKeyed = record { keyed = (refl, refl, (refl, refl, tt)); distinct = ((refl, tt), (tt, tt)) }

ops-IsKeyed_example :
    IsKeyed (add second store).1
    × IsKeyed (update second store).1
    × IsKeyed (erase "u1" store).1
    × IsKeyed (upsert second store)
ops-IsKeyed_example = ops-IsKeyed store second "u1" store-IsKeyed

get_after_example :
    (get "u1" (upsert second store) ≡ (if str_eq "u2" "u1" then some second else get "u1" store))
    × ((add second store).0 ≡ not (is_some (get "u2" store)))
    × (get "u1" (add second store).1
        ≡ (if str_eq "u2" "u1" && (add second store).0 then some second else get "u1" store))
    × ((update second store).0 ≡ is_some (get "u2" store))
    × (get "u1" (update second store).1
        ≡ (if str_eq "u2" "u1" && (update second store).0 then some second else get "u1" store))
    × ((erase "u2" store).0 ≡ is_some (get "u2" store))
    × (get "u1" (erase "u2" store).1 ≡ (if str_eq "u2" "u1" then none else get "u1" store))
get_after_example = get_after store second "u1" store-IsKeyed refl

get_open_orders_iff_example :
    In first (get_open_orders_by_market "KRW-BTC" store)
    ↔ ((get "u1" store ≡ some first) × (first.market ≡ "KRW-BTC") × (is_open first.status ≡ true))
get_open_orders_iff_example = get_open_orders_iff store "KRW-BTC" first store-IsKeyed
