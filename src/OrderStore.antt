-- ===== src/OrderStore.antt =====
-- engine/OrderStore.h and .cpp: the active orders by uuid. Each method holds the store's lock, so it is
-- one step. The order of the entries is the order in which the hash map is walked.
pub mod Laws
pub mod Query
mod Tests
use coin_bot.Base.{
  ℕ, String, Bool, true, false, Option, none, some, List, [], ◌∷◌, if◌then◌else◌, is_empty, is_some,
  length, str_eq, ◌&&◌,
}
use coin_bot.Base.Dict.{Dict, lookup, insert, replace, remove}
use coin_bot.Domain.OrderTypes.{OrderStatus}
use coin_bot.Domain.Order.{Order}

pub record OrderStore (D : Type 0) : Type 0 where
  pub orders : Dict (Order D)

-- `isOpenStatus`
pub is_open_status : OrderStatus → Bool
is_open_status OrderStatus.new = true
is_open_status OrderStatus.open_ = true
is_open_status OrderStatus.pending = true
is_open_status OrderStatus.filled = false
is_open_status OrderStatus.canceled = false
is_open_status OrderStatus.rejected = false

module _ {D : Type 0} where
  -- `emplace` leaves an entry that is there alone.
  unfoldable pub add : Order D → OrderStore D → Bool × OrderStore D
  add o s =
      if is_empty o.id
      then (false, s)
      else if is_some (lookup o.id s.orders)
      then (false, s)
      else (true, record { orders = insert o.id o s.orders })

  unfoldable pub get : String → OrderStore D → Option (Order D)
  get order_uuid s = lookup order_uuid s.orders

  unfoldable pub update : Order D → OrderStore D → Bool × OrderStore D
  update o s =
      if is_some (lookup o.id s.orders)
      then (true, record { orders = replace o.id o s.orders })
      else (false, s)

  unfoldable pub erase : String → OrderStore D → Bool × OrderStore D
  erase order_uuid s =
      if is_some (lookup order_uuid s.orders)
      then (true, record { orders = remove order_uuid s.orders })
      else (false, s)

  unfoldable pub upsert : Order D → OrderStore D → OrderStore D
  upsert o s = if is_empty o.id then s else record { orders = insert o.id o s.orders }

  pub open_orders : String → Dict (Order D) → List (Order D)
  unfolding is_open_status
  open_orders market [] = []
  open_orders market ((_, o) ∷ rest) =
      let found = open_orders market rest in
      if str_eq o.market market && is_open_status o.status then o ∷ found else found

  -- `getOpenOrdersByMarket`
  pub get_open_orders_by_market : String → OrderStore D → List (Order D)
  unfolding open_orders
  get_open_orders_by_market market s = open_orders market s.orders

  pub size : OrderStore D → ℕ
  size s = length s.orders
