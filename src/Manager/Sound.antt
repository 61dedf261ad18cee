-- ===== src/Manager/Sound.antt =====
-- What a worker needs to go on, before and after a recovery and the handlers.
pub mod Candles
use coin_bot.Base.{
  ℕ, zero, suc, ◌+◌, String, Bool, true, false, not, ◌&&◌, ◌||◌, Option, none, some, List, [], ◌∷◌,
  ◌≡◌, refl, ap, sym, ◌∙◌, subst, inl, inr, arith, Bool-cases, Option-cases, if◌then◌else◌,
  is_empty, is_some,
}
use coin_bot.Double.{Double}
use coin_bot.Domain.Order.{Order, OrderRequest}
use coin_bot.Domain.Account.{Candle}
use coin_bot.Domain.OrderTypes.{is_done}
use coin_bot.Json.{Json, ◌>>=◌}
use coin_bot.EventRouter.{EngineInput, my_order_raw, market_data_raw, account_sync_request}
use coin_bot.Engine.{
  World, PostResult, submit, set_mark_price, on_my_trade, poll_events, active_pending_ids,
}
use coin_bot.Engine.Events.{EngineEvent, fill, order_status}
use coin_bot.Engine.Exclusive.{
  IsExclusive, Leaves, submit-IsExclusive, on_my_trade-IsExclusive, on_order_snapshot-Leaves,
}
use coin_bot.Engine.Run.{LeavesTold, reconcile-Leaves}
use coin_bot.Engine.Snapshot.{on_order_snapshot}
use coin_bot.Engine.Reconcile.{reconcile_from_snapshot}
use coin_bot.Engine.Usable.{IsUsable, submit-IsUsable, on_my_trade-IsUsable}
use coin_bot.Engine.Defined.{
  Works, WorksTold, on_order_snapshot-Works, reconcile_from_snapshot-WorksTold,
}
use coin_bot.Strategy.State.{RsiMeanReversionStrategy}
use coin_bot.Strategy.Invariant.{
  IsCoherent, on_fill-IsCoherent, on_order_update-IsCoherent, on_candle-IsCoherent,
  on_intrabar_candle-IsCoherent, on_submit_failed-IsCoherent,
}
use coin_bot.Upbit.MyOrder.{MyOrderEvent, order_event, trade_event}
use coin_bot.Upbit.Messages.{Parsed, thrown, dropped, parsed}
use coin_bot.Manager.{
  Setup, Outside, Worker, Row, write, insert_order, set_world, set_strategy, set_ctx,
}
use coin_bot.Manager.Orders.{
  apply_event, apply_events, handle_my_order, take_reconciled, take_snapshot, mark_recovery,
  has_trade,
}
use coin_bot.Manager.Candles.{
  send, note_failure, decide_moving, intrabar_check, close_candle, take_candle, take_parsed,
  handle_market_data,
}
use coin_bot.Manager.Recovery.{
  query_order_with_retry, take_recovered, recover_found, recover_one, run_recovery, track,
  fire_when_due, check_pending_timeout,
}
use coin_bot.Manager.Loop.{
  fill_of, status_of, handle_engine_event, handle_engine_events, finish_round, after_handler,
  take_requested, handle_one, take_input, pop_input, round,
}

module _ {D : Type 0} ⦃d : Double D⦄ where
  -- The market has a budget, the store is keyed, no buy and sell are held together, the strategy is
  -- coherent, and whether the timer has fired is as given.
  pub record IsSound (fired : Bool) (w : Worker D) : Type 0 where
    pub usable : IsUsable w.world
    pub exclusive : IsExclusive w.world
    pub coherent : IsCoherent w.ctx.strategy
    pub timer : w.ctx.pending_timeout_fired ≡ fired

  -- The behaviour is defined, and leaves the worker sound.
  abbrev pub Safe : Bool → Option (Worker D) → Type 0
  Safe fired none = ⊥
  Safe fired (some w) = IsSound fired w

module _ {D : Type 0} {fired : Bool} ⦃d : Double D⦄ where
  pub with_rows-IsSound :
      (setup : Setup D) (rows : List (Row D)) (w : Worker D)
      → IsSound fired w
      → IsSound fired (write setup rows w)
  with_rows-IsSound setup rows w h = elim (Bool-cases (setup.has_db)) [
    | inl e ↦ rw e (record {
      usable = h.usable;
      exclusive = h.exclusive;
      coherent = h.coherent;
      timer = h.timer;
    })
    | inr e ↦ rw e h
  ]

  insert_order-IsSound :
      (setup : Setup D) (told : Bool) (o : Order D) (w : Worker D)
      → IsSound fired w
      → IsSound fired (insert_order setup told o w)
  unfolding insert_order
  insert_order-IsSound setup true o w h = with_rows-IsSound setup _ w h
  insert_order-IsSound setup false o w h = h

  mark_recovery-IsSound :
      (b : Bool) (w : Worker D) → IsSound fired w → IsSound fired (mark_recovery b w)
  mark_recovery-IsSound true w h = h
  mark_recovery-IsSound false w h = record {
    usable = h.usable;
    exclusive = h.exclusive;
    coherent = h.coherent;
    timer = h.timer;
  }

  take_reconciled-Safe :
      (setup : Setup D) (o : Order D) (r : Option (Bool × World D)) (w : Worker D)
      → IsSound fired w
      → WorksTold r
      → LeavesTold r
      → Safe fired (take_reconciled setup o r w)
  unfolding take_reconciled
  take_reconciled-Safe setup o none w c u e = u
  take_reconciled-Safe setup o (some (told, x)) w c u e = insert_order-IsSound setup told o _ (
      mark_recovery-IsSound told _
        (record { usable = u; exclusive = e; coherent = c.coherent; timer = c.timer }))

  take_recovered-Safe :
      (setup : Setup D) (o : Order D) (r : Option (Bool × World D)) (w : Worker D)
      → IsSound fired w
      → WorksTold r
      → LeavesTold r
      → Safe fired (take_recovered setup o r w)
  unfolding take_recovered
  take_recovered-Safe setup o none w c u e = u
  take_recovered-Safe setup o (some (told, x)) w c u e =
      insert_order-IsSound setup (is_done o.status && told) o _
        (record { usable = u; exclusive = e; coherent = c.coherent; timer = c.timer })

  take_snapshot-Safe :
      (setup : Setup D) (o : Order D) (r : Option (World D)) (w : Worker D)
      → IsSound fired w
      → Works r
      → Leaves r
      → Safe fired (take_snapshot setup o r w)
  unfolding take_snapshot
  take_snapshot-Safe setup o none w c u e = u
  take_snapshot-Safe setup o (some x) w c u e =
      insert_order-IsSound setup (is_done o.status) o _
        (record { usable = u; exclusive = e; coherent = c.coherent; timer = c.timer })

  apply_event-Safe :
      (setup : Setup D) (traded : Bool) (ev : MyOrderEvent D) (w : Worker D)
      → IsSound fired w
      → Safe fired (apply_event setup traded ev w)
  unfolding apply_event
  apply_event-Safe setup traded (trade_event t) w h = record {
    usable = on_my_trade-IsUsable setup.app setup.print t w.world h.usable;
    exclusive = on_my_trade-IsExclusive setup.app setup.print t w.world h.exclusive;
    coherent = h.coherent;
    timer = h.timer;
  }
  apply_event-Safe setup traded (order_event o) w h =
      elim (Bool-cases (not traded && is_done o.status)) [
        | inl e ↦ rw e (
            take_reconciled-Safe setup o _ w h
              (reconcile_from_snapshot-WorksTold setup.app o w.world h.usable)
              (reconcile-Leaves setup.app o w.world h.exclusive))
        | inr e ↦ rw e (
            take_snapshot-Safe setup o _ w h (on_order_snapshot-Works setup.app o w.world h.usable)
              (on_order_snapshot-Leaves setup.app o w.world h.exclusive))
      ]

  -- What is in question is the world and the strategy.
  pub moved-IsSound :
      {other : Bool} (w w' : Worker D)
      → w'.world ≡ w.world
      → w'.ctx.strategy ≡ w.ctx.strategy
      → w'.ctx.pending_timeout_fired ≡ other
      → IsSound fired w
      → IsSound other w'
  moved-IsSound w w' p q r h = record {
    usable = subst IsUsable (sym p) h.usable;
    exclusive = subst IsExclusive (sym p) h.exclusive;
    coherent = subst IsCoherent (sym q) h.coherent;
    timer = r;
  }

  pub Safe-bind :
      (other : Bool) (r : Option (Worker D)) (f : Worker D → Option (Worker D))
      → Safe fired r
      → ((w : Worker D) → IsSound fired w → Safe other (f w))
      → Safe other (r >>= f)
  Safe-bind other none f h g = h
  Safe-bind other (some w) f h g = g w h

  pub apply_events-Safe :
      (setup : Setup D) (traded : Bool) (evs : List (MyOrderEvent D)) (w : Worker D)
      → IsSound fired w
      → Safe fired (apply_events setup traded evs w)
  unfolding apply_events
  apply_events-Safe setup traded [] w h = h
  apply_events-Safe setup traded (ev ∷ evs) w h =
      Safe-bind _ (apply_event setup traded ev w) _ (apply_event-Safe setup traded ev w h)
        (apply_events-Safe setup traded evs)

  recover_found-Safe :
      (setup : Setup D) (o : Option (Order D)) (w : Worker D)
      → IsSound fired w
      → Safe fired (recover_found setup o w)
  unfolding recover_found
  recover_found-Safe setup none w h = h
  recover_found-Safe setup (some o) w h =
      take_recovered-Safe setup o _ w h
        (reconcile_from_snapshot-WorksTold setup.app o w.world h.usable)
        (reconcile-Leaves setup.app o w.world h.exclusive)

  recover_one-Safe :
      (setup : Setup D) (get_order : String → ℕ → Option (Order D)) (u : String) (w : Worker D)
      → IsSound fired w
      → Safe fired (recover_one setup get_order u w)
  unfolding recover_one
  recover_one-Safe setup get_order u w h = elim (Bool-cases (is_empty u)) [
    | inl e ↦ rw e h
    | inr e ↦ rw e (recover_found-Safe setup _ w h)
  ]

  pub run_recovery-Safe :
      (setup : Setup D) (get_order : String → ℕ → Option (Order D)) (w : Worker D)
      → IsSound fired w
      → Safe false (run_recovery setup get_order w)
  unfolding run_recovery
  run_recovery-Safe setup get_order w h =
      let (buy, sell) = active_pending_ids w.world in
      elim (Bool-cases (is_empty buy && is_empty sell)) [
        | inl e ↦ rw e (moved-IsSound w _ refl refl refl h)
        | inr e ↦ rw e (
            Safe-bind _ (recover_one setup get_order buy w) _
              (recover_one-Safe setup get_order buy w h)
              (λ w' h'.
                Safe-bind _ (recover_one setup get_order sell w') _
                  (recover_one-Safe setup get_order sell w' h')
                  (λ w'' h''. moved-IsSound w'' _ refl refl refl h'')))
      ]
