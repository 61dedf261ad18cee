-- ===== src/Engine.antt =====
-- engine/MarketEngine.h and .cpp: one market's engine. Its methods run on the thread that owns it, and
-- the store and the account manager that it calls are atomic, so a method is a function on the
-- engine's state and the two. Log output is not modelled.
pub mod Events
pub mod Request
pub mod Dedupe
pub mod Snapshot
pub mod Reconcile
pub mod Exclusive
pub mod Run
pub mod Window
pub mod Once
pub mod Sync
pub mod Replay
pub mod Rollback
pub mod Ending
pub mod Usable
pub mod Defined
pub mod Tests
use coin_bot.Base.{
  ℕ, String, Bool, true, false, Option, none, some, List, [], ◌∷◌, ◌++◌, not, ◌&&◌, ◌||◌,
  if◌then◌else◌, is_some, is_empty, str_eq,
}
use coin_bot.Double.{Double, ◌⊕◌, ◌⊖◌, ◌⊘◌, ◌<?◌, ◌≤?◌, lit, max}
use coin_bot.Domain.OrderTypes.{
  OrderPosition, OrderStatus, PositionEffect, is_bid, is_limit, is_done, same_status,
}
use coin_bot.Domain.Order.{Order, OrderRequest, OrderSize, volume_size, amount_size, MyTrade}
use coin_bot.Domain.Account.{AppConfig}
use coin_bot.Account.{
  AccountManager, reserve, release, destroy, finalize_fill_buy, finalize_fill_sell,
  finalize_sell_order, finalize_order, get_budget,
}
use coin_bot.Account.Token.{ReservationToken}
use coin_bot.OrderStore.{OrderStore, get, update, erase, upsert}
use Events.{
  EngineEvent, fill, order_status, EngineErrorCode, EngineResult, EngineFillEvent,
  EngineOrderStatusEvent,
}
use Request.{validate_request, compute_reserve_amount}
use Dedupe.{Seen, mark_trade_once, make_trade_dedupe_key}

pub record MarketEngine (D : Type 0) : Type 0 where
  pub market : String
  pub seen : Seen
  pub events : List (EngineEvent D)
  pub active_buy_token : Option (ReservationToken D)
  pub active_buy_order_uuid : String
  pub active_sell_order_uuid : String
  pub last_mark_price : D

-- An engine with the store and the account manager that it has references to.
pub record World (D : Type 0) : Type 0 where
  pub engine : MarketEngine D
  pub store : OrderStore D
  pub accounts : AccountManager D

-- What `IOrderApi::postOrder` returns: the exchange's uuid, or an error.
pub data PostResult : Type 0 where
  posted : String → PostResult
  post_failed : PostResult

abbrev pub or_else {ℓ} : {A : Type ℓ} → Option A → Option A → Option A
or_else none other = other
or_else (some a) other = some a

module _ {D : Type 0} where
  abbrev pub set_engine : World D → MarketEngine D → World D
  set_engine w e = record w { engine = e }

  abbrev pub set_accounts : World D → AccountManager D → World D
  set_accounts w m = record w { accounts = m }

  -- `EngineResult::Fail` and `Success`
  unfoldable pub fail : EngineErrorCode → EngineResult D
  fail code = record { success = false; code = code; order = none; my_trade = none; account = none }

  unfoldable pub succeed : Order D → EngineResult D
  succeed o = record {
    success = true;
    code = EngineErrorCode.none;
    order = some o;
    my_trade = none;
    account = none;
  }

  unfoldable pub push_event : EngineEvent D → World D → World D
  push_event ev w = set_engine w (record (w.engine) { events = w.engine.events ++ (ev ∷ []) })

  -- `pollEvents`: the events, oldest first, and the queue emptied.
  unfoldable pub poll_events : World D → List (EngineEvent D) × World D
  poll_events w = (w.engine.events, set_engine w (record (w.engine) { events = [] }))

  -- `activePendingIds`
  unfoldable pub active_pending_ids : World D → String × String
  active_pending_ids w = (w.engine.active_buy_order_uuid, w.engine.active_sell_order_uuid)

  unfoldable pub set_mark_price : D → World D → World D
  set_mark_price p w = set_engine w (record (w.engine) { last_mark_price = p })

  abbrev volume_of : OrderSize D → Option D
  volume_of (volume_size v) = some v
  volume_of (amount_size a) = none

  abbrev amount_of : OrderSize D → Option D
  amount_of (volume_size v) = none
  amount_of (amount_size a) = some a

module _ {D : Type 0} ⦃d : Double D⦄ where
  -- The order that `submit` puts into the store.
  unfoldable pub pending_order : String → OrderRequest D → Order D
  pending_order order_uuid r = record {
    market = r.market;
    identifier = if is_empty r.identifier then none else some r.identifier;
    id = order_uuid;
    position = r.position;
    type = r.type;
    price = r.price;
    volume = volume_of r.size;
    requested_amount = amount_of r.size;
    executed_volume = lit 0;
    remaining_volume = lit 0;
    trades_count = 0;
    reserved_fee = lit 0;
    paid_fee = lit 0;
    remaining_fee = lit 0;
    locked = lit 0;
    executed_funds = lit 0;
    status = OrderStatus.pending;
    created_at = "";
  }

  store_order : String → OrderRequest D → World D → EngineResult D × World D
  unfolding pending_order succeed
  store_order order_uuid r w =
      let o = pending_order order_uuid r in (succeed o, record w { store = upsert o w.store })

  abbrev pub reset_buy : MarketEngine D → MarketEngine D
  reset_buy e = record e { active_buy_token = none; active_buy_order_uuid = "" }

  -- `release(std::move(*active_buy_token_))`, then the token's object is destroyed.
  release_buy : ReservationToken D → World D → World D
  release_buy t w =
      let (t', m) = release w.accounts t in
      record w { engine = reset_buy w.engine; accounts = destroy t' m }

  send_buy :
      (OrderRequest D → PostResult)
      → OrderRequest D
      → ReservationToken D
      → World D
      → EngineResult D × World D
  unfolding store_order release_buy fail
  send_buy post r t w = elim (post r) [
    | post_failed ↦ (fail EngineErrorCode.internal_error, release_buy t w)
    | posted order_uuid ↦
        store_order order_uuid r
          (set_engine w (record (w.engine) { active_buy_order_uuid = order_uuid }))
  ]

  reserve_and_send :
      (OrderRequest D → PostResult)
      → OrderRequest D
      → Option (ReservationToken D)
      → World D
      → EngineResult D × World D
  unfolding send_buy fail
  reserve_and_send post r none w = (fail EngineErrorCode.insufficient_funds, w)
  reserve_and_send post r (some t) w =
      send_buy post r t (set_engine w (record (w.engine) { active_buy_token = some t }))

  submit_buy :
      AppConfig D
      → (OrderRequest D → PostResult)
      → OrderRequest D
      → World D
      → EngineResult D × World D
  unfolding reserve_and_send fail
  submit_buy cfg post r w =
      if is_some w.engine.active_buy_token
      then (fail EngineErrorCode.order_rejected, w)
      else if not (is_empty w.engine.active_sell_order_uuid)
      then (fail EngineErrorCode.order_rejected, w)
      else let (token, m) =
          reserve w.accounts w.engine.market (compute_reserve_amount cfg.engine r) in
        reserve_and_send post r token (set_accounts w m)

  send_sell : (OrderRequest D → PostResult) → OrderRequest D → World D → EngineResult D × World D
  unfolding store_order fail
  send_sell post r w = elim (post r) [
    | post_failed ↦ (fail EngineErrorCode.internal_error, w)
    | posted order_uuid ↦
        store_order order_uuid r
          (set_engine w (record (w.engine) { active_sell_order_uuid = order_uuid }))
  ]

  submit_sell : (OrderRequest D → PostResult) → OrderRequest D → World D → EngineResult D × World D
  unfolding send_sell fail
  submit_sell post r w =
      if not (is_empty w.engine.active_sell_order_uuid)
      then (fail EngineErrorCode.order_rejected, w)
      else if is_some w.engine.active_buy_token
      then (fail EngineErrorCode.order_rejected, w)
      else send_sell post r w

  pub submit :
      AppConfig D
      → (OrderRequest D → PostResult)
      → OrderRequest D
      → World D
      → EngineResult D × World D
  unfolding submit_buy submit_sell fail
  submit cfg post r w =
      if not (validate_request r)
      then (fail EngineErrorCode.order_rejected, w)
      else if not (str_eq r.market w.engine.market)
      then (fail EngineErrorCode.market_not_supported, w)
      else if is_bid r.position
      then submit_buy cfg post r w
      else submit_sell post r w

  -- `onMyTrade`, its last part: the fill goes to the account manager.
  settle_trade : MyTrade D → World D → World D
  settle_trade t w =
      if is_bid t.side
      then elim (w.engine.active_buy_token) [
        | none ↦ w
        | some token ↦
            if str_eq w.engine.active_buy_order_uuid t.order_uuid
            then (let (token', m) =
                  finalize_fill_buy w.accounts token (t.executed_funds ⊕ t.fee) t.volume t.price in
                record w {
                  engine = record (w.engine) { active_buy_token = some token' };
                  accounts = m;
                })
            else w
      ]
      else set_accounts w (
          finalize_fill_sell w.accounts w.engine.market t.volume
            (max (lit 0) (t.executed_funds ⊖ t.fee)))

  fill_event : String → MyTrade D → String → EngineEvent D
  fill_event identifier t key = fill (record {
    identifier = identifier;
    order_uuid = t.order_uuid;
    trade_uuid = if is_empty t.trade_uuid then key else t.trade_uuid;
    position = t.side;
    fill_price = t.price;
    filled_volume = t.volume;
  })

  report_fill : Option String → MyTrade D → String → World D → World D
  unfolding fill_event push_event
  report_fill none t key w = w
  report_fill (some identifier) t key w =
      if is_empty identifier then w else push_event (fill_event identifier t key) w

  take_trade : MyTrade D → String → Option (Order D) → World D → World D
  unfolding settle_trade report_fill
  take_trade t key none w = w
  take_trade t key (some o) w =
      settle_trade t (report_fill (or_else t.identifier o.identifier) t key w)

  unfoldable pub on_my_trade : AppConfig D → (MyTrade D → String) → MyTrade D → World D → World D
  unfolding take_trade
  on_my_trade cfg print t w =
      let key = make_trade_dedupe_key print t in
      let (first, seen) = mark_trade_once cfg.engine.max_seen_trades key w.engine.seen in
      if not (str_eq t.market w.engine.market)
      then w
      else if not first
      then w
      else take_trade t key (get t.order_uuid w.store)
          (set_engine w (record (w.engine) { seen = seen }))
