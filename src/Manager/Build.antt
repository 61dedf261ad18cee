-- ===== src/Manager/Build.antt =====
-- The constructor of `MarketEngineManager`, `registerWith`, `requestReconnectRecovery` and
-- `hasFatalWorker`. Starting, stopping and joining threads is the standard library's.
use coin_bot.Base.{
  ℕ, zero, suc, ◌+◌, String, ◌<>◌, Bool, true, false, ◌||◌, Option, none, some, List, [], ◌∷◌,
  if◌then◌else◌, is_some,
}
use coin_bot.Base.Dict.{Dict, lookup, insert, update_all}
use coin_bot.Double.{Double, lit}
use coin_bot.Domain.Account.{Account, AccountConfig}
use coin_bot.Account.{AccountManager}
use coin_bot.Account.Build.{rebuild_from_account}
use coin_bot.BlockingQueue.{empty_queue}
use coin_bot.EventRouter.{Router, register_market}
use coin_bot.Engine.{MarketEngine}
use coin_bot.Indicators.Rsi.{RsiWilder}
use coin_bot.Strategy.State.{Params, construct, id_text}
use coin_bot.Startup.{Options, Answers, run}
use coin_bot.Manager.{Setup, MarketContext}

-- A context of the manager: that of the worker, and its engine.
pub record Entry (D : Type 0) : Type 0 where
  pub ctx : MarketContext D
  pub engine : MarketEngine D

unfoldable pub recovery_options : String → Options
recovery_options market = record {
  bot_identifier_prefix = id_text <> ":" <> market <> ":";
  cancel_retry = 1;
  verify_retry = 1;
}

module _ {D : Type 0} ⦃d : Double D⦄ where
  -- `rebuildAccountOnStartup_`: `left` tries from number `i` on; the Boolean is what it returns.
  unfoldable pub rebuild_account :
      AccountConfig D
      → (ℕ → Option (Account D))
      → ℕ
      → ℕ
      → AccountManager D
      → Bool × AccountManager D
  rebuild_account cfg my_account i zero m = (false, m)
  rebuild_account cfg my_account i (suc left) m =
      let again = rebuild_account cfg my_account (i + 1) left m in
      elim (my_account i) [ none ↦ again | some a ↦ (true, rebuild_from_account cfg a m) ]

  -- The constructor of `MarketEngine`.
  unfoldable pub new_engine : String → MarketEngine D
  new_engine market = record {
    market = market;
    seen = record { uuids = []; fifo = [] };
    events = [];
    active_buy_token = none;
    active_buy_order_uuid = "";
    active_sell_order_uuid = "";
    last_mark_price = lit 0;
  }

  -- A new context, with `recoverMarketState_`. `blank` is the state of an index before its reset.
  unfoldable pub new_entry : RsiWilder D → Params D → Setup D → Answers D → String → Entry D
  unfolding new_engine recovery_options run
  new_entry blank params setup x market =
      let strategy = record (construct blank market params) { has_callback = setup.has_db } in
      record {
        engine = new_engine market;
        ctx = record {
          market = market;
          strategy = (run x market (recovery_options market) strategy).1;
          event_queue = empty_queue setup.queue_capacity;
          pending_candle = none;
          intrabar_fail_ts = none;
          tracking_pending = false;
          pending_entered_at = 0;
          pending_timeout_fired = false;
          recovery_requested = false;
          has_active_pending = false;
          exited_abnormally = false;
        };
      }

  -- A market that is given again is skipped.
  unfoldable pub new_entries :
      RsiWilder D
      → Params D
      → Setup D
      → (String → Answers D)
      → List String
      → Dict (Entry D)
      → Dict (Entry D)
  unfolding new_entry
  new_entries blank params setup x [] entries = entries
  new_entries blank params setup x (market ∷ markets) entries =
      new_entries blank params setup x markets (
        if is_some (lookup market entries)
        then entries
        else insert market (new_entry blank params setup (x market) market) entries)

  -- The constructor. `none` is the exception when no account is answered at first; the second answers
  -- are those after the recovery.
  unfoldable pub build :
      RsiWilder D
      → Params D
      → Setup D
      → (ℕ → Option (Account D))
      → (ℕ → Option (Account D))
      → (String → Answers D)
      → List String
      → AccountManager D
      → Option (Dict (Entry D) × AccountManager D)
  unfolding rebuild_account new_entries
  build blank params setup first second x markets m =
      let (synced, m') = rebuild_account setup.app.account first 0 setup.sync_retry m in
      let entries = new_entries blank params setup x markets [] in
      let (again, m'') = rebuild_account setup.app.account second 0 setup.sync_retry m' in
      if synced then some (entries, m'') else none

module _ {D : Type 0} where
  -- `address` is where the queue of a market is.
  unfoldable pub register_with : (String → ℕ) → Dict (Entry D) → Router → Router
  unfolding register_market
  register_with address [] r = r
  register_with address ((market, e) ∷ entries) r =
      register_with address entries (register_market market (address market) r)

  unfoldable pub ask_recovery : Entry D → Entry D
  ask_recovery e =
      if e.ctx.has_active_pending
      then record e { ctx = record (e.ctx) { recovery_requested = true } }
      else e

  unfoldable pub request_reconnect_recovery : Dict (Entry D) → Dict (Entry D)
  unfolding ask_recovery
  request_reconnect_recovery entries = update_all ask_recovery entries

  unfoldable pub has_fatal_worker : Dict (Entry D) → Bool
  has_fatal_worker [] = false
  has_fatal_worker ((market, e) ∷ entries) = e.ctx.exited_abnormally || has_fatal_worker entries

  -- The guard of `workerLoop_`, when the loop is left.
  unfoldable pub leave_loop : Bool → MarketContext D → MarketContext D
  leave_loop stop_requested c = if stop_requested then c else record c { exited_abnormally = true }
