-- ===== src/Manager/Rounds.antt =====
-- `workerLoop_` as a machine: the rounds of a worker, and what happens between them.
use coin_bot.Base.{ℕ, Bool, true, false, Option, none, some, List, [], ◌∷◌, ◌≡◌, refl, subst, arith}
use coin_bot.Double.{Double}
use coin_bot.Json.{Json, ◌>>=◌}
use coin_bot.BlockingQueue.{BlockingQueue}
use coin_bot.Manager.Sound.{
  IsSound, Safe, Safe-bind, moved-IsSound, with_rows-IsSound, apply_events-Safe, run_recovery-Safe,
}
use coin_bot.EventRouter.{EngineInput, my_order_raw, market_data_raw, account_sync_request}
use coin_bot.Engine.{World, poll_events}
use coin_bot.Engine.Events.{EngineEvent, fill, order_status}
use coin_bot.Engine.Exclusive.{IsExclusive}
use coin_bot.Engine.Usable.{IsUsable}
use coin_bot.Strategy.Invariant.{on_fill-IsCoherent, on_order_update-IsCoherent}
use coin_bot.Upbit.Messages.{parse_my_order, parse_candle}
use coin_bot.Manager.Sound.Candles.{take_parsed-IsSound, with_strategy-IsSound}
use coin_bot.Manager.{Setup, Outside, Worker, set_world, set_ctx}
use coin_bot.Manager.Orders.{handle_my_order}
use coin_bot.Manager.Candles.{handle_market_data}
use coin_bot.Manager.Recovery.{is_pending, reset_timer, track, fire_when_due, check_pending_timeout}
use coin_bot.Manager.Loop.{
  fill_of, status_of, handle_engine_event, handle_engine_events, finish_round, after_handler,
  take_requested, handle_one, take_input, pop_input, round,
}

module _ {D : Type 0} ⦃d : Double D⦄ where
  handle_engine_event-IsSound :
      (setup : Setup D) (now : ℕ) (ev : EngineEvent D) (w : Worker D)
      → IsSound false w
      → IsSound false (handle_engine_event setup now ev w)
  unfolding handle_engine_event
  handle_engine_event-IsSound setup now (fill e) w h =
      with_strategy-IsSound _ w (on_fill-IsCoherent (fill_of e) w.ctx.strategy h.coherent) h
  handle_engine_event-IsSound setup now (order_status e) w h = with_rows-IsSound setup _ _ (
      with_strategy-IsSound _ w
        (on_order_update-IsCoherent now (status_of e) w.ctx.strategy h.coherent) h)

  handle_engine_events-IsSound :
      (setup : Setup D) (now : ℕ) (evs : List (EngineEvent D)) (w : Worker D)
      → IsSound false w
      → IsSound false (handle_engine_events setup now evs w)
  unfolding handle_engine_events
  handle_engine_events-IsSound setup now [] w h = h
  handle_engine_events-IsSound setup now (ev ∷ evs) w h =
      handle_engine_events-IsSound setup now evs _ (handle_engine_event-IsSound setup now ev w h)

  track-IsSound : (now : ℕ) (w : Worker D) → IsSound false w → IsSound false (track now w)
  unfolding track
  track-IsSound now w h =
      let begun = set_ctx w (record (w.ctx) {
        tracking_pending = true;
        pending_entered_at = now;
        pending_timeout_fired = false;
      }) in
      ground (arith, moved-IsSound w begun refl refl refl h)

  fire_when_due-Safe :
      (setup : Setup D) (x : Outside D) (w : Worker D)
      → IsSound false w
      → Safe false (fire_when_due setup x w)
  unfolding fire_when_due
  fire_when_due-Safe setup x w h =
      let fired = set_ctx w (record (w.ctx) { pending_timeout_fired = true }) in
      ground (
        arith,
        run_recovery-Safe setup x.get_order_late fired (moved-IsSound w fired refl refl refl h),
      )

  check_pending_timeout-Safe :
      (setup : Setup D) (x : Outside D) (w : Worker D)
      → IsSound false w
      → Safe false (check_pending_timeout setup x w)
  unfolding check_pending_timeout
  check_pending_timeout-Safe setup x w h =
      let w' = set_ctx w (record (w.ctx) { has_active_pending = is_pending w.world }) in
      let h' : IsSound false w' = moved-IsSound w w' refl refl h.timer h in
      ground (
        arith,
        moved-IsSound w (reset_timer w') refl refl refl h,
        fire_when_due-Safe setup x (track x.now_entered w') (track-IsSound x.now_entered w' h'),
      )

  finish_round-Safe :
      (setup : Setup D) (x : Outside D) (w : Worker D)
      → IsSound false w
      → Safe false (finish_round setup x w)
  unfolding finish_round poll_events
  finish_round-Safe setup x w h = check_pending_timeout-Safe setup x _ (
      handle_engine_events-IsSound setup x.now_ms w.world.engine.events _ (record {
        usable = record { known = h.usable.known; keyed = h.usable.keyed };
        exclusive = record { one_side = h.exclusive.one_side; linked = h.exclusive.linked };
        coherent = h.coherent;
        timer = h.timer;
      }))

  take_requested-Safe :
      (setup : Setup D) (x : Outside D) (w : Worker D)
      → IsSound false w
      → Safe false (take_requested setup x w)
  unfolding take_requested
  take_requested-Safe setup x w h =
      let taken = set_ctx w (record (w.ctx) { recovery_requested = false }) in
      ground (
        arith,
        h,
        run_recovery-Safe setup x.get_order taken (moved-IsSound w taken refl refl h.timer h),
      )

  -- What holds of a handler's result.
  abbrev Handled : Option (Bool × Worker D) → Type 0
  Handled none = ⊥
  Handled (some (threw, w)) = IsSound false w

  not_thrown : (r : Option (Worker D)) → Safe false r → Handled (r >>= (λ w. some (false, w)))
  not_thrown none h = h
  not_thrown (some w) h = h

  after_handler-Safe :
      (setup : Setup D) (x : Outside D) (r : Option (Bool × Worker D))
      → Handled r
      → Safe false (r >>= after_handler setup x)
  unfolding after_handler
  after_handler-Safe setup x none h = h
  after_handler-Safe setup x (some (true, w)) h = h
  after_handler-Safe setup x (some (false, w)) h = finish_round-Safe setup x w h

module _ {J D : Type 0} (json : Json J D) ⦃d : Double D⦄ where
  take_input-Handled :
      (setup : Setup D) (x : Outside D) (i : Option EngineInput) (w : Worker D)
      → IsSound false w
      → Handled (take_input json setup x i w)
  unfolding take_input handle_one handle_my_order handle_market_data
  take_input-Handled setup x none w h = h
  take_input-Handled setup x (some (my_order_raw text)) w h =
      not_thrown _ (apply_events-Safe setup _ (parse_my_order json setup.app text) w h)
  take_input-Handled setup x (some (market_data_raw text)) w h =
      take_parsed-IsSound setup x (parse_candle json setup.live_candle_unit_minutes text) w h
  take_input-Handled setup x (some account_sync_request) w h =
      not_thrown _ (run_recovery-Safe setup x.get_order w h)

  pub round-Safe :
      (setup : Setup D) (x : Outside D) (w : Worker D)
      → IsSound false w
      → Safe false (round json setup x w)
  unfolding round pop_input
  round-Safe setup x w h =
      Safe-bind false (take_requested setup x w) _ (take_requested-Safe setup x w h) (λ w' h'.
        after_handler-Safe setup x _ (
          take_input-Handled setup x _ _ (moved-IsSound w' (pop_input w').1 refl refl h'.timer h')))

-- What happens to a worker: a round; a message that the router puts into its queue, or takes out to make
-- room; a recovery that another thread asks for; and what the other workers do to the store and the
-- accounts that all share, which leaves the market its budget and the store keyed.
pub data Step {J D : Type 0} (json : Json J D) ⦃d : Double D⦄ (setup : Setup D)
    : Worker D → Worker D → Type 0 where
  runs : (w w' : Worker D) (x : Outside D) → round json setup x w ≡ some w' → Step json setup w w'
  queues :
      (w : Worker D) (q : BlockingQueue EngineInput)
      → Step json setup w (set_ctx w (record (w.ctx) { event_queue = q }))
  asks :
      (w : Worker D) → Step json setup w (set_ctx w (record (w.ctx) { recovery_requested = true }))
  others :
      (w : Worker D) (x : World D)
      → x.engine ≡ w.world.engine
      → IsUsable x
      → Step json setup w (set_world w x)

pub data Reach {J D : Type 0} (json : Json J D) ⦃d : Double D⦄ (setup : Setup D) (w : Worker D)
    : Worker D → Type 0 where
  here : Reach json setup w w
  next :
      {w' w'' : Worker D} → Reach json setup w w' → Step json setup w' w'' → Reach json setup w w''

module _ {J D : Type 0} (json : Json J D) ⦃d : Double D⦄ (setup : Setup D) where
  other_engines-IsExclusive : (w x : World D) → x.engine ≡ w.engine → IsExclusive w → IsExclusive x
  other_engines-IsExclusive w x e h = ground arith

  Step-IsSound : {w w' : Worker D} → Step json setup w w' → IsSound false w → IsSound false w'
  Step-IsSound (runs w w' x e) h = subst (Safe false) e (round-Safe json setup x w h)
  Step-IsSound (queues w q) h = moved-IsSound w _ refl refl h.timer h
  Step-IsSound (asks w) h = moved-IsSound w _ refl refl h.timer h
  Step-IsSound (others w x e u) h = record {
    usable = u;
    exclusive = other_engines-IsExclusive w.world x e h.exclusive;
    coherent = h.coherent;
    timer = h.timer;
  }

  pub Reach-IsSound : {w w' : Worker D} → IsSound false w → Reach json setup w w' → IsSound false w'
  Reach-IsSound h here = h
  Reach-IsSound h (next r s) = Step-IsSound s (Reach-IsSound h r)

  Safe-defined :
      (r : Option (Worker D)) → Safe false r → (w : Worker D) × (r ≡ some w) × IsSound false w
  Safe-defined none h = elim h [ ]
  Safe-defined (some w) h = (w, refl, h)

  -- A worker that begins sound (its market has a budget, the store files orders under their identifiers,
  -- the engine holds no buy with a sell, the strategy is coherent, and the pending timer has not fired) can always run its next round:
  -- whatever rounds, messages, requests and steps of other workers came before, and whatever the exchange
  -- answers, the round does not run into undefined behaviour, and leaves the worker sound again.
  pub next_round :
      (w w' : Worker D) (x : Outside D)
      → IsSound false w
      → Reach json setup w w'
      → (w'' : Worker D) × (round json setup x w' ≡ some w'') × IsSound false w''
  next_round w w' x h r = Safe-defined _ (round-Safe json setup x w' (Reach-IsSound h r))
