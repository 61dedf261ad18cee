-- ===== src/Manager/Tests.antt =====
-- The worker's theorems at a worker that has sent a buy, on whole numbers.
use coin_bot.Base.{String, true, false, Option, none, some, List, [], ◌∷◌, ◌≡◌, refl, arith}
use coin_bot.Base.Dict.{lookup, replace}
use coin_bot.Double.Int.{ℤ, pos, int_double, ℤ-IsExact}
use coin_bot.Json.{Json}
use coin_bot.EventRouter.{account_sync_request}
use coin_bot.OrderStore.{get, update}
use coin_bot.Engine.{posted, on_my_trade}
use coin_bot.Engine.Snapshot.{on_order_snapshot}
use coin_bot.Engine.Dedupe.{mark_trade_once, make_trade_dedupe_key, contains}
use coin_bot.Upbit.Messages.{parse_my_order}
use coin_bot.Upbit.MyOrder.{to_events}
use coin_bot.Engine.Tests.{
  cfg, after_buy, snapshot, after_buy-IsKeyed, after_buy-IsDeduped, after_buy-registered,
}
use coin_bot.Strategy.Tests.{waiting, waiting-IsCoherent}
use coin_bot.Upbit.Tests.{Node, fields, text, number, json_of, traded}
use coin_bot.Manager.{Setup, Outside, Worker, MarketContext}
use coin_bot.Manager.Orders.{handle_my_order}
use coin_bot.Manager.Recovery.{query_order_with_retry}
use coin_bot.Manager.Loop.{round}
use coin_bot.Manager.Sound.{IsSound}
use coin_bot.Manager.Rounds.{Reach, Step, next_round}
use coin_bot.Manager.Again.{redelivered}
use coin_bot.Manager.Pending.{answer_to}
use coin_bot.Manager.Confirmed.{Records, updates, handle_all, writes_closed}

abbrev setup : Setup ℤ
setup = record {
  app = cfg;
  print = λ t. "FALLBACK|";
  has_db = true;
  live_candle_unit_minutes = 1;
  queue_capacity = 100;
  sync_retry = 3;
  pending_timeout = 120;
}

abbrev outside : Outside ℤ
outside = record {
  post_close = λ r. posted "u2";
  post_moving = λ r. posted "u3";
  uuid_close = "x2";
  uuid_moving = "x3";
  get_order = λ uuid i. none;
  get_order_late = λ uuid i. some snapshot;
  now_ms = 5;
  now_entered = 200;
  now_checked = 200;
}

abbrev ctx : MarketContext ℤ
ctx = record {
  market = "KRW-BTC";
  strategy = waiting;
  event_queue = record { q = account_sync_request ∷ []; max_size = 100 };
  pending_candle = none;
  intrabar_fail_ts = none;
  tracking_pending = true;
  pending_entered_at = 10;
  pending_timeout_fired = false;
  recovery_requested = false;
  has_active_pending = true;
  exited_abnormally = false;
}

abbrev worker : Worker ℤ
worker = record { ctx = ctx; world = after_buy; rows = [] }

worker-IsSound : IsSound false worker
worker-IsSound = record {
  usable = record { known = after_buy-registered; keyed = after_buy-IsKeyed };
  exclusive = record { one_side = refl; linked = refl };
  coherent = waiting-IsCoherent;
  timer = refl;
}

next_round_example :
    (w : Worker ℤ) × (round
        (json_of [])
        setup
        outside
        (record worker { ctx = record ctx { recovery_requested = true } })
      ≡ some w)
    × IsSound false w
next_round_example =
    next_round (json_of []) setup worker
      (record worker { ctx = record ctx { recovery_requested = true } }) outside worker-IsSound
      (Reach.next Reach.here (Step.asks worker))

looked_up : answer_to setup outside worker ≡ some snapshot
unfolding query_order_with_retry
looked_up = refl

abbrev handled : Option (Worker ℤ)
handled = handle_my_order (json_of (("m", traded) ∷ [])) setup "m" worker

abbrev or_worker : Option (Worker ℤ) → Worker ℤ
or_worker none = worker
or_worker (some w) = w

handled_once : handled ≡ some (or_worker handled)
unfolding handle_my_order parse_my_order to_events on_my_trade on_order_snapshot lookup get update
    replace mark_trade_once make_trade_dedupe_key contains
handled_once = refl

redelivered_example :
    (w : Worker ℤ) × (handle_my_order (json_of (("m", traded) ∷ [])) setup "m" (or_worker handled)
      ≡ some w)
    × (w.world ≡ (or_worker handled).world)
redelivered_example =
    redelivered (json_of (("m", traded) ∷ [])) setup "m" worker (or_worker handled)
      (λ e. omega arith) after_buy-IsDeduped after_buy-IsKeyed handled_once

-- A candle of the minute `ts` that closes at `close`.
abbrev candle_at : String → ℤ → Node
candle_at ts close = fields (
    ("type", text "candle.3m")
    ∷ ("code", text "KRW-BTC")
    ∷ ("opening_price", number (pos 90))
    ∷ ("high_price", number (pos 90))
    ∷ ("low_price", number (pos 70))
    ∷ ("trade_price", number close)
    ∷ ("candle_acc_trade_volume", number (pos 1))
    ∷ ("candle_date_time_kst", text ts)
    ∷ [])

abbrev candles : List (Outside ℤ × String)
candles = (outside, "a") ∷ (outside, "b") ∷ (outside, "c") ∷ []

abbrev candle_json : Json Node ℤ
candle_json = json_of (
    ("a", candle_at "t1" (pos 80))
    ∷ ("b", candle_at "t1" (pos 81))
    ∷ ("c", candle_at "t2" (pos 82))
    ∷ [])

writes_closed_example :
    Records (updates candle_json 1 candles) worker (handle_all candle_json setup candles worker)
writes_closed_example = writes_closed candle_json setup candles worker refl
