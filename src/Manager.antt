-- ===== src/Manager.antt =====
-- app/MarketEngineManager.h and .cpp: the worker of each market, which brings its queue, its engine and
-- its strategy together. This file has the state; a child has each part of the code.
pub mod Orders
pub mod Candles
pub mod Recovery
pub mod Loop
pub mod Build
pub mod Sound
pub mod Rounds
pub mod Again
pub mod Confirmed
pub mod Pending
pub mod Tests
use coin_bot.Base.{ℕ, String, Bool, Option, none, some, List, [], ◌∷◌, ◌++◌, if◌then◌else◌}
use coin_bot.Double.{Double, lit}
use coin_bot.Domain.Order.{Order, OrderRequest, MyTrade}
use coin_bot.Domain.Account.{AppConfig, Candle}
use coin_bot.Account.{AccountManager, MarketBudget, get_budget}
use coin_bot.BlockingQueue.{BlockingQueue}
use coin_bot.EventRouter.{EngineInput}
use coin_bot.Engine.{World, PostResult}
use coin_bot.Strategy.Types.{AccountSnapshot, SignalRecord}
use coin_bot.Strategy.State.{RsiMeanReversionStrategy}

-- `MarketContext`, but for its engine and its thread.
pub record MarketContext (D : Type 0) : Type 0 where
  pub market : String
  pub strategy : RsiMeanReversionStrategy D
  pub event_queue : BlockingQueue EngineInput
  pub pending_candle : Option (Candle D)
  pub intrabar_fail_ts : Option String
  pub tracking_pending : Bool
  pub pending_entered_at : ℕ
  pub pending_timeout_fired : Bool
  pub recovery_requested : Bool
  pub has_active_pending : Bool
  pub exited_abnormally : Bool

-- What is written to the database.
pub data Row (D : Type 0) : Type 0 where
  order_row : Order D → Row D
  candle_row : String → Candle D → ℕ → Row D
  signal_row : SignalRecord D → Row D

-- A worker at work: its context, its engine with the store and the accounts that all share, and the rows
-- that it has written.
pub record Worker (D : Type 0) : Type 0 where
  pub ctx : MarketContext D
  pub world : World D
  pub rows : List (Row D)

-- What does not change: the settings, whether there is a database, and the text of a printed trade.
pub record Setup (D : Type 0) : Type 0 where
  pub app : AppConfig D
  pub print : MyTrade D → String
  pub has_db : Bool
  pub live_candle_unit_minutes : ℕ
  pub queue_capacity : ℕ
  pub sync_retry : ℕ
  pub pending_timeout : ℕ

-- What comes from outside in one round of a worker: the exchange's answers to the orders that are sent
-- at a close and at a move, the random parts of their identifiers, the answers to `getOrder` for an order
-- at each try (a second function for a recovery after the timeout), and the clocks.
pub record Outside (D : Type 0) : Type 0 where
  pub post_close : OrderRequest D → PostResult
  pub post_moving : OrderRequest D → PostResult
  pub uuid_close : String
  pub uuid_moving : String
  pub get_order : String → ℕ → Option (Order D)
  pub get_order_late : String → ℕ → Option (Order D)
  pub now_ms : ℕ
  pub now_entered : ℕ
  pub now_checked : ℕ

module _ {D : Type 0} where
  abbrev pub set_ctx : Worker D → MarketContext D → Worker D
  set_ctx w c = record w { ctx = c }

  abbrev pub set_world : Worker D → World D → Worker D
  set_world w x = record w { world = x }

  abbrev pub set_strategy : Worker D → RsiMeanReversionStrategy D → Worker D
  set_strategy w s = set_ctx w (record (w.ctx) { strategy = s })

  abbrev pub write : Setup D → List (Row D) → Worker D → Worker D
  write setup rows w = if setup.has_db then record w { rows = w.rows ++ rows } else w

  -- `if (db_ && told) db_->insertOrder(o)`
  unfoldable pub insert_order : Setup D → Bool → Order D → Worker D → Worker D
  insert_order setup told o w = if told then write setup (order_row o ∷ []) w else w

module _ {D : Type 0} ⦃d : Double D⦄ where
  abbrev snapshot_of : Option (MarketBudget D) → AccountSnapshot D
  snapshot_of none = record { krw_available = lit 0; coin_available = lit 0 }
  snapshot_of (some b) = record { krw_available = b.available_krw; coin_available = b.coin_balance }

  unfoldable pub build_account_snapshot : String → AccountManager D → AccountSnapshot D
  build_account_snapshot market m = snapshot_of (get_budget market m)
