-- ===== src/Engine/Tests.antt =====
-- The engine's theorems at a world with a buy under way, on whole KRW.
use coin_bot.Base.{true, none, some, is_some, [], ◌∷◌, ◌≡◌, refl, arith, not}
use coin_bot.Base.Dict.{lookup, replace}
use coin_bot.Double.Int.{ℤ, pos, int_double, ℤ-IsExact, pos_nonneg}
use coin_bot.Domain.OrderTypes.{OrderPosition, OrderType, OrderStatus, is_done}
use coin_bot.Domain.Order.{Order, OrderRequest, amount_size, MyTrade, make_my_trade_from_fill}
use coin_bot.Domain.Account.{AppConfig}
use coin_bot.Account.{AccountManager, MarketBudget, finalize_fill_buy}
use coin_bot.Account.Token.{ReservationToken}
use coin_bot.Account.Build.{no_stats, empty_budget}
use coin_bot.OrderStore.{get, update}
use coin_bot.OrderStore.Laws.{IsKeyed}
use coin_bot.Engine.{World, posted, post_failed, submit, on_my_trade}
use coin_bot.Engine.Snapshot.{on_order_snapshot}
use coin_bot.Engine.Reconcile.{reconcile_from_snapshot}
use coin_bot.Engine.Exclusive.{IsExclusive}
use coin_bot.Engine.Run.{Reach, Step, Reach-IsExclusive}
use coin_bot.Engine.Once.{IsDeduped, trade_once}
use coin_bot.Engine.Sync.{snapshot_again}
use coin_bot.Engine.Replay.{reconcile_again}
use coin_bot.Engine.Ending.{registered, stays, snapshot_defined}
use coin_bot.Engine.Rollback.{SendsOrRollsBack, submit-SendsOrRollsBack}

abbrev pub cfg : AppConfig ℤ
cfg = record {
  strategy = record { min_notional_krw = pos 5000 };
  engine = record {
    max_seen_trades = 3;
    max_private_batch = 10;
    reserve_margin = pos 1;
    default_trade_fee_rate = pos 0;
  };
  account = record {
    coin_epsilon = pos 1;
    krw_dust_threshold = pos 2;
    init_dust_threshold_krw = pos 5000;
  };
}

abbrev request : OrderRequest ℤ
request = record {
  market = "KRW-BTC";
  position = OrderPosition.bid;
  type = OrderType.market;
  size = amount_size (pos 8000);
  price = none;
  strategy_id = "s";
  identifier = "c1";
  client_tag = "t";
}

abbrev budget : MarketBudget ℤ
budget = record (empty_budget "KRW-BTC") { available_krw = pos 10000; reserved_krw = pos 0 }

abbrev pub idle : World ℤ
idle = record {
  engine = record {
    market = "KRW-BTC";
    seen = record { uuids = []; fifo = [] };
    events = [];
    active_buy_token = none;
    active_buy_order_uuid = "";
    active_sell_order_uuid = "";
    last_mark_price = pos 0;
  };
  store = record { orders = [] };
  accounts = record { budgets = ("KRW-BTC", budget) ∷ []; next_token_id = 1; stats = no_stats };
}

-- After the order `u1` was sent.
abbrev pub order : Order ℤ
order = record {
  market = "KRW-BTC";
  identifier = some "c1";
  id = "u1";
  position = OrderPosition.bid;
  type = OrderType.market;
  price = none;
  volume = none;
  requested_amount = some (pos 8000);
  executed_volume = pos 0;
  remaining_volume = pos 0;
  trades_count = 0;
  reserved_fee = pos 0;
  paid_fee = pos 0;
  remaining_fee = pos 0;
  locked = pos 0;
  executed_funds = pos 0;
  status = OrderStatus.pending;
  created_at = "";
}

abbrev token : ReservationToken ℤ
token = record {
  has_manager = true;
  market = "KRW-BTC";
  amount = pos 8000;
  consumed = pos 0;
  id = 1;
  active = true;
}

abbrev pub after_buy : World ℤ
after_buy = record idle {
  engine = record (idle.engine) { active_buy_token = some token; active_buy_order_uuid = "u1" };
  store = record { orders = ("u1", order) ∷ [] };
  accounts = record (idle.accounts) {
    budgets = ("KRW-BTC", record budget { available_krw = pos 2000; reserved_krw = pos 8000 }) ∷ [];
    next_token_id = 2;
    stats = record no_stats { total_reserves = 1 };
  };
}

abbrev pub trade : MyTrade ℤ
trade = make_my_trade_from_fill "u1" "t1" "KRW-BTC" OrderPosition.bid (pos 100) (pos 30) (pos 3) 0

-- Two thirds of the order are filled.
abbrev pub snapshot : Order ℤ
snapshot = record order {
  executed_volume = pos 60;
  executed_funds = pos 6000;
  paid_fee = pos 3;
  status = OrderStatus.open_;
}

idle-IsExclusive : IsExclusive idle
idle-IsExclusive = record { one_side = refl; linked = refl }

pub after_buy-IsKeyed : IsKeyed after_buy.store
after_buy-IsKeyed = record { keyed = (refl, refl, tt); distinct = (tt, tt) }

pub after_buy-IsDeduped : IsDeduped cfg after_buy
unfolding IsDeduped
after_buy-IsDeduped = (record { same = λ k. refl; once = tt; in_turn = tt }, omega arith)

trade_once_example :
    let w' = on_my_trade cfg (λ t. "FALLBACK|") trade after_buy in
    (on_my_trade cfg (λ t. "FALLBACK|") trade w' ≡ w') × IsDeduped cfg w'
trade_once_example =
    trade_once cfg (λ t. "FALLBACK|") trade after_buy (λ e. omega arith) after_buy-IsDeduped

Reach-IsExclusive_example :
    IsExclusive
      (submit cfg (λ r. posted "u2") request (submit cfg (λ r. posted "u1") request idle).1).1
Reach-IsExclusive_example =
    Reach-IsExclusive cfg (λ t. "FALLBACK|") idle-IsExclusive
      (Reach.next (Reach.next Reach.here (Step.submits idle (λ r. posted "u1") request))
        (Step.submits (submit cfg (λ r. posted "u1") request idle).1 (λ r. posted "u2") request))

found : lookup "KRW-BTC" idle.accounts.budgets ≡ some budget
unfolding lookup
found = refl

submit-SendsOrRollsBack_example :
    SendsOrRollsBack post_failed idle (submit cfg (λ r. post_failed) request idle)
submit-SendsOrRollsBack_example =
    submit-SendsOrRollsBack cfg (λ r. post_failed) request idle budget idle-IsExclusive found
      (pos_nonneg 0)

-- The worlds that the snapshot leaves, applied by itself and with the difference booked first.
abbrev pub updated : World ℤ
updated = record after_buy { store = record { orders = ("u1", snapshot) ∷ [] } }

abbrev booked : ReservationToken ℤ × AccountManager ℤ
booked = finalize_fill_buy after_buy.accounts token (pos 6003) (pos 60) (pos 100)

abbrev pub reconciled : World ℤ
reconciled = record updated {
  engine = record (after_buy.engine) { active_buy_token = some booked.0 };
  accounts = booked.1;
}

applies : on_order_snapshot cfg snapshot after_buy ≡ some updated
unfolding on_order_snapshot get update lookup replace
applies = refl

pub reconciles : reconcile_from_snapshot cfg snapshot after_buy ≡ some (true, reconciled)
unfolding reconcile_from_snapshot get lookup on_order_snapshot update replace
reconciles = refl

snapshot_again_example : on_order_snapshot cfg snapshot updated ≡ some updated
snapshot_again_example = snapshot_again cfg snapshot after_buy updated after_buy-IsKeyed applies

reconcile_again_example :
    reconcile_from_snapshot cfg snapshot reconciled
    ≡ some (not (is_done snapshot.status), reconciled)
reconcile_again_example =
    reconcile_again cfg snapshot after_buy reconciled after_buy-IsKeyed reconciles

-- The order is filled to its end, and reported under its identifier.
abbrev ending : Order ℤ
ending = record snapshot { status = OrderStatus.filled; identifier = some "c1" }

pub after_buy-registered : registered after_buy ≡ true
unfolding lookup
after_buy-registered = refl

snapshot_defined_example :
    (w' : World ℤ) × (on_order_snapshot cfg ending after_buy ≡ some w')
    × (registered w' ≡ true)
    × (is_some (get ending.id w'.store) ≡ stays ending after_buy)
snapshot_defined_example =
    snapshot_defined cfg ending after_buy after_buy-registered after_buy-IsKeyed
