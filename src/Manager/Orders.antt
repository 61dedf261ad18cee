-- ===== src/Manager/Orders.antt =====
-- `handleMyOrder_`: the engine learns of a trade and of a snapshot. `none` is undefined behaviour of the
-- engine.
use coin_bot.Base.{
  String, Bool, true, false, not, ◌&&◌, Option, none, some, List, [], ◌∷◌, if◌then◌else◌,
}
use coin_bot.Double.{Double}
use coin_bot.Domain.OrderTypes.{is_done}
use coin_bot.Domain.Order.{Order}
use coin_bot.Json.{Json, ◌>>=◌}
use coin_bot.Engine.{World, on_my_trade}
use coin_bot.Engine.Snapshot.{on_order_snapshot}
use coin_bot.Engine.Reconcile.{reconcile_from_snapshot}
use coin_bot.Upbit.MyOrder.{MyOrderEvent, order_event, trade_event}
use coin_bot.Upbit.Messages.{parse_my_order}
use coin_bot.Manager.{Setup, Worker, set_world, insert_order}

module _ {D : Type 0} ⦃d : Double D⦄ where
  unfoldable pub has_trade : List (MyOrderEvent D) → Bool
  has_trade [] = false
  has_trade (trade_event t ∷ evs) = true
  has_trade (order_event o ∷ evs) = has_trade evs

  -- A failed reconciliation asks for a recovery.
  abbrev pub mark_recovery : Bool → Worker D → Worker D
  mark_recovery reconciled w =
      if reconciled then w else record w { ctx = record (w.ctx) { recovery_requested = true } }

  unfoldable pub take_reconciled :
      Setup D → Order D → Option (Bool × World D) → Worker D → Option (Worker D)
  unfolding insert_order
  take_reconciled setup o none w = none
  take_reconciled setup o (some (reconciled, x)) w =
      some (insert_order setup reconciled o (mark_recovery reconciled (set_world w x)))

  unfoldable pub take_snapshot : Setup D → Order D → Option (World D) → Worker D → Option (Worker D)
  unfolding insert_order
  take_snapshot setup o none w = none
  take_snapshot setup o (some x) w = some (insert_order setup (is_done o.status) o (set_world w x))

  unfoldable pub apply_event : Setup D → Bool → MyOrderEvent D → Worker D → Option (Worker D)
  unfolding take_reconciled take_snapshot
  apply_event setup traded (trade_event t) w =
      some (set_world w (on_my_trade setup.app setup.print t w.world))
  apply_event setup traded (order_event o) w =
      if not traded && is_done o.status
      then take_reconciled setup o (reconcile_from_snapshot setup.app o w.world) w
      else take_snapshot setup o (on_order_snapshot setup.app o w.world) w

  unfoldable pub apply_events :
      Setup D → Bool → List (MyOrderEvent D) → Worker D → Option (Worker D)
  unfolding apply_event
  apply_events setup traded [] w = some w
  apply_events setup traded (ev ∷ evs) w = do
    w' ← apply_event setup traded ev w
    apply_events setup traded evs w'

module _ {J D : Type 0} (json : Json J D) ⦃d : Double D⦄ where
  unfoldable pub handle_my_order : Setup D → String → Worker D → Option (Worker D)
  unfolding apply_events has_trade
  handle_my_order setup text w =
      let events = parse_my_order json setup.app text in
      apply_events setup (has_trade events) events w
