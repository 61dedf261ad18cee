-- ===== src/Engine/Snapshot.antt =====
-- `onOrderSnapshot` of engine/MarketEngine.cpp. `none` stands for undefined
-- behaviour: `resolvePositionEffect_` reads the budget of the market without a test that it is there.
use coin_bot.Base.{
  String, Bool, Option, none, some, not, ◌&&◌, ◌||◌, if◌then◌else◌, is_some, is_empty, str_eq,
}
use coin_bot.Double.{Double, ◌<?◌, ◌≤?◌, lit}
use coin_bot.Domain.OrderTypes.{OrderStatus, PositionEffect, is_bid, is_limit, is_done, same_status}
use coin_bot.Domain.Order.{Order}
use coin_bot.Domain.Account.{AppConfig, AccountConfig}
use coin_bot.Account.{
  AccountManager, MarketBudget, destroy, finalize_sell_order, finalize_order, get_budget,
}
use coin_bot.Account.Token.{ReservationToken}
use coin_bot.OrderStore.{get, update, erase}
use coin_bot.Engine.Events.{EngineEvent, order_status}
use coin_bot.Engine.{World, push_event, or_else, reset_buy}

module _ {D : Type 0} ⦃d : Double D⦄ where
  -- The order of the store, brought up to date. What was requested is kept where it was set.
  unfoldable pub merge : Order D → Order D → Order D
  merge o snapshot = record o {
    market = if is_empty snapshot.market then o.market else snapshot.market;
    position = snapshot.position;
    type = snapshot.type;
    price =
        if not (is_some o.price) && is_some snapshot.price && is_limit snapshot.type
        then snapshot.price
        else o.price;
    volume = or_else o.volume snapshot.volume;
    executed_volume = snapshot.executed_volume;
    remaining_volume = snapshot.remaining_volume;
    trades_count = snapshot.trades_count;
    reserved_fee = snapshot.reserved_fee;
    remaining_fee = snapshot.remaining_fee;
    paid_fee = snapshot.paid_fee;
    locked = snapshot.locked;
    executed_funds = snapshot.executed_funds;
    status = snapshot.status;
    identifier = or_else o.identifier snapshot.identifier;
    created_at = if is_empty snapshot.created_at then o.created_at else snapshot.created_at;
  }

  unfoldable pub effect_of :
      AccountConfig D → Order D → Option (MarketBudget D) → Option PositionEffect
  effect_of cfg o none = none
  effect_of cfg o (some b) = some (
      if is_bid o.position
      then PositionEffect.opened
      else if cfg.coin_epsilon ≤? b.coin_balance
      then PositionEffect.reduced
      else PositionEffect.closed)

  -- `resolvePositionEffect_`
  unfoldable pub resolve_position_effect :
      AccountConfig D → AccountManager D → String → Order D → Option PositionEffect
  unfolding effect_of
  resolve_position_effect cfg m market o =
      if o.executed_volume ≤? lit 0
      then some PositionEffect.none
      else effect_of cfg o (get_budget market m)

  unfoldable pub close_buy : AppConfig D → Option (ReservationToken D) → World D → World D
  close_buy cfg none w = w
  close_buy cfg (some t) w =
      let (t', m) = finalize_order cfg.account w.accounts t in
      record w { engine = reset_buy w.engine; accounts = destroy t' m }

  -- `finalizeBuyToken_`
  unfoldable pub finalize_buy_token : AppConfig D → String → World D → World D
  unfolding close_buy
  finalize_buy_token cfg order_uuid w =
      if is_empty w.engine.active_buy_order_uuid
        || not (str_eq w.engine.active_buy_order_uuid order_uuid)
      then w
      else close_buy cfg w.engine.active_buy_token w

  unfoldable pub settle_buy_end : AppConfig D → Order D → World D → World D
  unfolding finalize_buy_token
  settle_buy_end cfg o w =
      if is_bid o.position && str_eq o.id w.engine.active_buy_order_uuid
      then finalize_buy_token cfg o.id w
      else w

  -- The price of the last candle, if there was one.
  abbrev pub mark : World D → Option D
  mark w = if lit 0 <? w.engine.last_mark_price then some w.engine.last_mark_price else none

  unfoldable pub settle_sell_end : AppConfig D → Order D → World D → World D
  settle_sell_end cfg o w =
      if not (is_bid o.position) && str_eq o.id w.engine.active_sell_order_uuid
      then record w {
        accounts = finalize_sell_order cfg.account w.accounts w.engine.market (mark w);
        engine = record (w.engine) { active_sell_order_uuid = "" };
      }
      else w

  unfoldable pub status_event : String → Order D → PositionEffect → EngineEvent D
  status_event identifier o effect = order_status (record {
    identifier = identifier;
    order_uuid = o.id;
    status = o.status;
    position = o.position;
    executed_volume = o.executed_volume;
    remaining_volume = o.remaining_volume;
    executed_funds = o.executed_funds;
    position_effect = effect;
  })

  unfoldable pub push_status : String → Order D → Option PositionEffect → World D → Option (World D)
  unfolding status_event push_event
  push_status identifier o none w = none
  push_status identifier o (some effect) w = some (push_event (status_event identifier o effect) w)

  unfoldable pub report_status : AppConfig D → Option String → Order D → World D → Option (World D)
  unfolding push_status resolve_position_effect
  report_status cfg none o w = some w
  report_status cfg (some identifier) o w =
      if is_empty identifier
      then some w
      else push_status identifier o
          (resolve_position_effect cfg.account w.accounts w.engine.market o) w

  unfoldable pub forget : String → Option (World D) → Option (World D)
  forget order_uuid none = none
  forget order_uuid (some w) = some (record w { store = (erase order_uuid w.store).1 })

  -- The terminal part: `o` is the merged order, and `old_status` that of the store.
  unfoldable pub finish : AppConfig D → OrderStatus → Order D → World D → Option (World D)
  unfolding settle_buy_end settle_sell_end report_status forget
  finish cfg old_status o w = forget o.id (
      if same_status o.status old_status
      then some w
      else report_status cfg o.identifier o (settle_sell_end cfg o (settle_buy_end cfg o w)))

  unfoldable pub apply_snapshot :
      AppConfig D → Order D → Option (Order D) → World D → Option (World D)
  unfolding merge finish
  apply_snapshot cfg snapshot none w = some w
  apply_snapshot cfg snapshot (some old) w =
      let o = merge old snapshot in
      let (updated, store) = update o w.store in
      let w' = record w { store = store } in
      if not updated
      then some w
      else if is_done o.status
      then finish cfg old.status o w'
      else some w'

  abbrev pub is_foreign : Order D → World D → Bool
  is_foreign snapshot w =
      not (is_empty snapshot.market) && not (str_eq snapshot.market w.engine.market)

  unfoldable pub on_order_snapshot : AppConfig D → Order D → World D → Option (World D)
  unfolding apply_snapshot
  on_order_snapshot cfg snapshot w =
      if is_foreign snapshot w
      then some w
      else apply_snapshot cfg snapshot (get snapshot.id w.store) w
