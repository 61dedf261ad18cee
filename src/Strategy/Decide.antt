-- ===== src/Strategy/Decide.antt =====
-- `onCandle` and `onIntrabarCandle` of strategies/RsiMeanReversionStrategy.cpp: what the strategy does
-- at a candle. `uuid` is the text that `makeUuidV4` would give.
use coin_bot.Base.{
  String, ◌<>◌, Bool, false, not, ◌&&◌, ◌||◌, Option, none, some, if◌then◌else◌, is_some, is_empty,
  str_eq,
}
use coin_bot.Double.{Double, ◌⊖◌, ◌⊗◌, ◌⊘◌, ◌<?◌, ◌≤?◌, ◌=?◌, abs, lit}
use coin_bot.Domain.Order.{OrderRequest}
use coin_bot.Domain.Account.{AppConfig, Candle}
use coin_bot.Indicators.{Value}
use coin_bot.Indicators.Rsi
use coin_bot.Indicators.ClosePriceWindow
use coin_bot.Indicators.Volatility
use coin_bot.Strategy.Types.{
  AccountSnapshot, Decision, Snapshot, can_buy, can_sell, no_action, submit, bare_snapshot,
}
use coin_bot.Strategy.State.{
  RsiMeanReversionStrategy, Params, State, clear_fills, clear_prices, set_entry, make_identifier,
  make_market_buy_by_amount, make_market_sell_by_volume,
}

abbrev add_reason : String → String → String → String
add_reason alone after reason = if is_empty reason then alone else reason <> after

unfoldable pub exit_reason : Bool → Bool → Bool → String
exit_reason hit_stop hit_target rsi_exit =
    let stop : String = if hit_stop then "exit_stop" else "" in
    let target = if hit_target then add_reason "exit_target" "_target" stop else stop in
    let all =
      if rsi_exit then add_reason "exit_rsi_overbought" "_rsi_overbought" target else target in
    if is_empty all then "exit_unknown" else all

abbrev pub same_ts : Option String → String → Bool
same_ts none ts = false
same_ts (some last) ts = str_eq last ts

module _ {D : Type 0} ⦃d : Double D⦄ where
  -- The filters, from the values of the three indicators.
  unfoldable pub judge : Params D → D → Value D → Value D → Value D → Snapshot D
  judge params close rsi close_n volatility =
      let trend_ready = close_n.ready && not (close_n.v =? lit 0) in
      let trend_strength = if trend_ready then abs (close ⊖ close_n.v) ⊘ close_n.v else lit 0 in
      record {
        close = close;
        rsi = rsi;
        close_n = close_n;
        volatility = volatility;
        trend_ready = trend_ready;
        trend_strength = trend_strength;
        market_ok =
            (if trend_ready then trend_strength ≤? params.max_trend_strength else false)
            && (if volatility.ready then params.min_volatility ≤? volatility.v else false)
            && rsi.ready;
      }

  unfoldable pub build_snapshot :
      Candle D → RsiMeanReversionStrategy D → Snapshot D × RsiMeanReversionStrategy D
  unfolding judge
  build_snapshot c s =
      let (rsi, rsi_state) = Rsi.update_candle c s.rsi in
      let (close_n, close_state) = ClosePriceWindow.update_candle c s.close_n in
      let (volatility, vol_state) = Volatility.update_candle c s.vol in
      (
        judge s.params c.close_price rsi close_n volatility,
        record s { rsi = rsi_state; close_n = close_state; vol = vol_state },
      )

  -- The part that entering and leaving share: the order gets its identifier, and is waited for.
  unfoldable pub place :
      State
      → String
      → Snapshot D
      → OrderRequest D
      → String
      → RsiMeanReversionStrategy D
      → Decision D × RsiMeanReversionStrategy D
  place state cid snapshot req exit_reason s = (
    submit (record req { identifier = cid }),
    record (clear_fills s) {
      signal_snapshot = snapshot;
      state = state;
      pending_client_id = some cid;
      pending_exit_reason = exit_reason;
    },
  )

  unfoldable pub krw_to_use : AppConfig D → AccountSnapshot D → Params D → D
  krw_to_use cfg account params =
      (account.krw_available ⊘ cfg.engine.reserve_margin) ⊗ params.utilization

  unfoldable pub maybe_enter :
      AppConfig D
      → String
      → Snapshot D
      → AccountSnapshot D
      → RsiMeanReversionStrategy D
      → Decision D × RsiMeanReversionStrategy D
  unfolding place krw_to_use make_identifier make_market_buy_by_amount
  maybe_enter cfg uuid snapshot account s =
      let krw = krw_to_use cfg account s.params in
      if not (can_buy account)
      then (no_action, s)
      else if not snapshot.market_ok
      then (no_action, s)
      else if not (snapshot.rsi.v ≤? s.params.oversold)
      then (no_action, s)
      else if krw <? cfg.strategy.min_notional_krw
      then (no_action, s)
      else if krw ≤? lit 0
      then (no_action, s)
      else let tag : String = "entry_rsi_oversold" in
        let (cid, s') = make_identifier uuid tag s in
        place State.pending_entry cid snapshot (make_market_buy_by_amount krw tag s')
          s'.pending_exit_reason s'

  -- The order that sells all there is of the coin, if that is worth enough.
  unfoldable pub sell_all :
      AppConfig D
      → String
      → String
      → Snapshot D
      → AccountSnapshot D
      → RsiMeanReversionStrategy D
      → RsiMeanReversionStrategy D
      → Decision D × RsiMeanReversionStrategy D
  unfolding place make_market_sell_by_volume
  sell_all cfg cid tag snapshot account too_small s =
      if account.coin_available ⊗ snapshot.close <? cfg.strategy.min_notional_krw
      then (no_action, too_small)
      else place State.pending_exit cid snapshot
          (make_market_sell_by_volume account.coin_available tag s) tag s

  -- `maybeExit` makes the identifier before it tests the order's value, so that `seq_` moves on in
  -- either case.
  unfoldable pub exit_for :
      AppConfig D
      → String
      → Snapshot D
      → AccountSnapshot D
      → String
      → RsiMeanReversionStrategy D
      → Decision D × RsiMeanReversionStrategy D
  unfolding sell_all make_identifier
  exit_for cfg uuid snapshot account tag s =
      let (cid, s') = make_identifier uuid tag s in sell_all cfg cid tag snapshot account s' s'

  abbrev pub has_prices : RsiMeanReversionStrategy D → Bool
  has_prices s = is_some s.entry_price && is_some s.stop_price && is_some s.target_price

  -- Whether the close has reached the stop, or the target; false where there is none.
  abbrev pub at_or_below : D → Option D → Bool
  at_or_below close none = false
  at_or_below close (some p) = close ≤? p

  abbrev pub at_or_above : D → Option D → Bool
  at_or_above close none = false
  at_or_above close (some p) = p ≤? close

  unfoldable pub maybe_exit :
      AppConfig D
      → String
      → Snapshot D
      → AccountSnapshot D
      → RsiMeanReversionStrategy D
      → Decision D × RsiMeanReversionStrategy D
  unfolding exit_for exit_reason
  maybe_exit cfg uuid snapshot account s =
      let rsi_exit = snapshot.rsi.ready && (s.params.overbought ≤? snapshot.rsi.v) in
      let hit_stop = has_prices s && at_or_below snapshot.close s.stop_price in
      let hit_target = has_prices s && at_or_above snapshot.close s.target_price in
      if not (can_sell account)
      then (no_action, s)
      else if not (hit_stop || hit_target || rsi_exit)
      then (no_action, s)
      else exit_for cfg uuid snapshot account (exit_reason hit_stop hit_target rsi_exit) s

  -- What the account holds overrules a state in which no order is waited for.
  unfoldable pub adjust :
      AppConfig D → D → AccountSnapshot D → RsiMeanReversionStrategy D → RsiMeanReversionStrategy D
  adjust cfg close account s =
      let notional = account.coin_available ⊗ close in
      elim (s.state) [
        | State.flat ↦
            if cfg.strategy.min_notional_krw ≤? notional
            then set_entry close (record s { state = State.in_position })
            else s
        | State.in_position ↦
            if notional <? cfg.strategy.min_notional_krw
            then clear_prices (record s { state = State.flat })
            else s
        | State.pending_entry ↦ s
        | State.pending_exit ↦ s
      ]

  unfoldable pub act :
      AppConfig D
      → String
      → Snapshot D
      → AccountSnapshot D
      → RsiMeanReversionStrategy D
      → Decision D × RsiMeanReversionStrategy D
  unfolding maybe_enter maybe_exit
  act cfg uuid snapshot account s = elim (s.state) [
    | State.flat ↦ maybe_enter cfg uuid snapshot account s
    | State.pending_entry ↦ (no_action, s)
    | State.in_position ↦ maybe_exit cfg uuid snapshot account s
    | State.pending_exit ↦ (no_action, s)
  ]

  unfoldable pub on_candle :
      AppConfig D
      → String
      → Candle D
      → AccountSnapshot D
      → RsiMeanReversionStrategy D
      → Decision D × RsiMeanReversionStrategy D
  unfolding build_snapshot adjust act
  on_candle cfg uuid c account s =
      if not (str_eq c.market s.market)
      then (no_action, s)
      else if same_ts s.last_candle_ts c.start_timestamp
      then (no_action, s)
      else let (snapshot, s') =
          build_snapshot c (record s { last_candle_ts = some c.start_timestamp }) in
        act cfg uuid snapshot account (adjust cfg snapshot.close account s')

  -- `set_stops_from_entry` sets a stop and a target together, but this tests each. The tag has no part
  -- for the index, and the identifier is made only for an order that is sent.
  unfoldable pub on_intrabar_candle :
      AppConfig D
      → String
      → D
      → AccountSnapshot D
      → RsiMeanReversionStrategy D
      → Decision D × RsiMeanReversionStrategy D
  unfolding sell_all exit_reason make_identifier
  on_intrabar_candle cfg uuid intrabar_close account s = elim (s.state) [
    | State.in_position ↦
        let hit_stop = at_or_below intrabar_close s.stop_price in
        let hit_target = at_or_above intrabar_close s.target_price in
        if not (can_sell account)
        then (no_action, s)
        else if not (is_some s.stop_price && is_some s.target_price)
        then (no_action, s)
        else if not hit_stop && not hit_target
        then (no_action, s)
        else let tag = exit_reason hit_stop hit_target false in
          let (cid, s') = make_identifier uuid tag s in
          sell_all cfg cid tag (bare_snapshot intrabar_close) account s s'
    | State.flat ↦ (no_action, s)
    | State.pending_entry ↦ (no_action, s)
    | State.pending_exit ↦ (no_action, s)
  ]
