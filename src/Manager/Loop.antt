-- ===== src/Manager/Loop.antt =====
-- `handleOne_`, `handleEngineEvents_` and one round of `workerLoop_`.
use coin_bot.Base.{ℕ, Bool, false, Option, none, some, List, [], ◌∷◌, if◌then◌else◌, map}
use coin_bot.Double.{Double}
use coin_bot.Json.{Json, ◌>>=◌}
use coin_bot.BlockingQueue.{pop_for}
use coin_bot.EventRouter.{EngineInput, my_order_raw, market_data_raw, account_sync_request}
use coin_bot.Engine.{poll_events}
use coin_bot.Engine.Events.{
  EngineEvent, fill, order_status, EngineFillEvent, EngineOrderStatusEvent,
}
use coin_bot.Strategy.Types.{FillEvent, OrderStatusEvent}
use coin_bot.Strategy.Follow.{on_fill, on_order_update}
use coin_bot.Manager.{Setup, Outside, Worker, signal_row, set_ctx, set_world, set_strategy, write}
use coin_bot.Manager.Orders.{handle_my_order}
use coin_bot.Manager.Candles.{handle_market_data}
use coin_bot.Manager.Recovery.{run_recovery, check_pending_timeout}

module _ {D : Type 0} where
  unfoldable pub fill_of : EngineFillEvent D → FillEvent D
  fill_of e = record {
    identifier = e.identifier;
    position = e.position;
    fill_price = e.fill_price;
    filled_volume = e.filled_volume;
  }

  unfoldable pub status_of : EngineOrderStatusEvent D → OrderStatusEvent D
  status_of e = record {
    identifier = e.identifier;
    status = e.status;
    position = e.position;
    executed_volume = e.executed_volume;
    remaining_volume = e.remaining_volume;
    executed_funds = e.executed_funds;
    position_effect = e.position_effect;
  }

  -- The queue is popped when the wait is over.
  unfoldable pub pop_input : Worker D → Option EngineInput × Worker D
  pop_input w =
      let (input, q) = pop_for w.ctx.event_queue in
      (input, set_ctx w (record (w.ctx) { event_queue = q }))

module _ {D : Type 0} ⦃d : Double D⦄ where
  unfoldable pub handle_engine_event : Setup D → ℕ → EngineEvent D → Worker D → Worker D
  unfolding fill_of status_of
  handle_engine_event setup now (fill e) w = set_strategy w (on_fill (fill_of e) w.ctx.strategy)
  handle_engine_event setup now (order_status e) w =
      let (signals, s) = on_order_update now (status_of e) w.ctx.strategy in
      write setup (map signal_row signals) (set_strategy w s)

  unfoldable pub handle_engine_events : Setup D → ℕ → List (EngineEvent D) → Worker D → Worker D
  unfolding handle_engine_event
  handle_engine_events setup now [] w = w
  handle_engine_events setup now (ev ∷ evs) w =
      handle_engine_events setup now evs (handle_engine_event setup now ev w)

  -- What follows the handling of an input: the engine's events, and the timer.
  unfoldable pub finish_round : Setup D → Outside D → Worker D → Option (Worker D)
  unfolding handle_engine_events check_pending_timeout
  finish_round setup x w =
      let (evs, world) = poll_events w.world in
      check_pending_timeout setup x (handle_engine_events setup x.now_ms evs (set_world w world))

  -- A handler that was left by an exception ends the round.
  unfoldable pub after_handler : Setup D → Outside D → Bool × Worker D → Option (Worker D)
  unfolding finish_round
  after_handler setup x (thrown, w) = if thrown then some w else finish_round setup x w

  unfoldable pub take_requested : Setup D → Outside D → Worker D → Option (Worker D)
  unfolding run_recovery
  take_requested setup x w =
      if w.ctx.recovery_requested
      then run_recovery setup x.get_order
          (set_ctx w (record (w.ctx) { recovery_requested = false }))
      else some w

module _ {J D : Type 0} (json : Json J D) ⦃d : Double D⦄ where
  unfoldable pub handle_one :
      Setup D → Outside D → EngineInput → Worker D → Option (Bool × Worker D)
  unfolding handle_my_order handle_market_data run_recovery
  handle_one setup x (my_order_raw text) w = do
    w' ← handle_my_order json setup text w
    some (false, w')
  handle_one setup x (market_data_raw text) w = some (handle_market_data json setup x text w)
  handle_one setup x account_sync_request w = do
    w' ← run_recovery setup x.get_order w
    some (false, w')

  unfoldable pub take_input :
      Setup D → Outside D → Option EngineInput → Worker D → Option (Bool × Worker D)
  unfolding handle_one
  take_input setup x none w = some (false, w)
  take_input setup x (some input) w = handle_one setup x input w

  -- One round of the loop of `workerLoop_`; `none` is undefined behaviour of the engine.
  unfoldable pub round : Setup D → Outside D → Worker D → Option (Worker D)
  unfolding take_requested take_input pop_input after_handler
  round setup x w = do
    w' ← take_requested setup x w
    let (input, w'') = pop_input w'
    r ← take_input setup x input w''
    after_handler setup x r
