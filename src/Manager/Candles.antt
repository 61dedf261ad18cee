-- ===== src/Manager/Candles.antt =====
-- `handleMarketData_`: an update of a candle replaces the one that is pending; the first of the next
-- candle closes it.
use coin_bot.Base.{
  ℕ, String, Bool, true, false, not, ◌&&◌, Option, none, some, [], ◌∷◌, if◌then◌else◌, is_some,
  str_eq,
}
use coin_bot.Double.{Double}
use coin_bot.Domain.Order.{OrderRequest}
use coin_bot.Domain.Account.{Candle}
use coin_bot.Json.{Json}
use coin_bot.Engine.{PostResult, submit, set_mark_price}
use coin_bot.Strategy.State.{State}
use coin_bot.Strategy.Decide.{on_candle, on_intrabar_candle}
use coin_bot.Strategy.Follow.{on_submit_failed}
use coin_bot.Upbit.Messages.{Parsed, thrown, dropped, parsed, parse_candle}
use coin_bot.Manager.{
  Setup, Outside, Worker, candle_row, set_ctx, set_world, set_strategy, write,
  build_account_snapshot,
}

abbrev pub same_text : Option String → Option String → Bool
same_text none other = false
same_text (some s) none = false
same_text (some s) (some t) = str_eq s t

abbrev pub in_position : State → Bool
in_position State.flat = false
in_position State.pending_entry = false
in_position State.in_position = true
in_position State.pending_exit = false

module _ {D : Type 0} ⦃d : Double D⦄ where
  abbrev pub pending_ts : Worker D → Option String
  pending_ts w = elim (w.ctx.pending_candle) [ none ↦ none | some c ↦ some c.start_timestamp ]

  -- The order of a decision is sent; the Boolean says that it failed, and the strategy rolled back.
  unfoldable pub send :
      Setup D → (OrderRequest D → PostResult) → Option (OrderRequest D) → Worker D → Bool × Worker D
  send setup post none w = (false, w)
  send setup post (some req) w =
      let (result, x) = submit setup.app post req w.world in
      let w' = set_world w x in
      if result.success
      then (false, w')
      else (true, set_strategy w' (on_submit_failed w'.ctx.strategy))

  -- After a failure no other try is made at the same candle.
  unfoldable pub note_failure : Bool × Worker D → Worker D
  note_failure (failed, w) =
      if failed && is_some w.ctx.pending_candle
      then set_ctx w (record (w.ctx) { intrabar_fail_ts = pending_ts w })
      else w

  unfoldable pub decide_moving : Setup D → Outside D → D → Worker D → Worker D
  unfolding send note_failure build_account_snapshot
  decide_moving setup x intrabar_close w =
      let account = build_account_snapshot w.ctx.market w.world.accounts in
      let (decision, s) =
        on_intrabar_candle setup.app x.uuid_moving intrabar_close account w.ctx.strategy in
      note_failure (send setup x.post_moving decision.order (set_strategy w s))

  -- `doIntrabarCheck`
  unfoldable pub intrabar_check : Setup D → Outside D → D → Worker D → Worker D
  unfolding decide_moving set_mark_price
  intrabar_check setup x intrabar_close w =
      let w' = set_world w (set_mark_price intrabar_close w.world) in
      if same_text (pending_ts w') w'.ctx.intrabar_fail_ts
      then w'
      else if not (in_position w'.ctx.strategy.state)
      then w'
      else decide_moving setup x intrabar_close w'

  abbrev pub set_pending : Candle D → Worker D → Worker D
  set_pending c w = set_ctx w (record (w.ctx) { pending_candle = some c })

  -- `candle` is closed: it is recorded, and the strategy decides.
  unfoldable pub close_candle : Setup D → Outside D → Candle D → ℕ → Worker D → Worker D
  unfolding send set_mark_price build_account_snapshot
  close_candle setup x candle unit w =
      let w' = write setup (candle_row w.ctx.market candle unit ∷ []) w in
      let w'' = set_world w' (set_mark_price candle.close_price w'.world) in
      let account = build_account_snapshot w''.ctx.market w''.world.accounts in
      let (decision, s) = on_candle setup.app x.uuid_close candle account w''.ctx.strategy in
      (send setup x.post_close decision.order (set_strategy w'' s)).1

  unfoldable pub take_candle :
      Setup D → Outside D → Candle D → ℕ → Option (Candle D) → Worker D → Worker D
  unfolding intrabar_check close_candle
  take_candle setup x incoming unit none w =
      intrabar_check setup x incoming.close_price (set_pending incoming w)
  take_candle setup x incoming unit (some candle) w =
      let w' = set_pending incoming w in
      intrabar_check setup x incoming.close_price (
        if str_eq candle.start_timestamp incoming.start_timestamp
        then w'
        else close_candle setup x candle unit w')

  -- The Boolean says that an exception leaves the handler.
  unfoldable pub take_parsed : Setup D → Outside D → Parsed D → Worker D → Bool × Worker D
  unfolding take_candle
  take_parsed setup x thrown w = (true, w)
  take_parsed setup x dropped w = (false, w)
  take_parsed setup x (parsed r) w =
      (false, take_candle setup x r.candle r.unit_minutes w.ctx.pending_candle w)

module _ {J D : Type 0} (json : Json J D) ⦃d : Double D⦄ where
  unfoldable pub handle_market_data : Setup D → Outside D → String → Worker D → Bool × Worker D
  unfolding take_parsed
  handle_market_data setup x text w =
      take_parsed setup x (parse_candle json setup.live_candle_unit_minutes text) w
