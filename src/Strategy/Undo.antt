-- ===== src/Strategy/Undo.antt =====
-- `onSubmitFailed` after the decision whose order could not be sent.
use coin_bot.Base.{
  String, Bool, true, false, not, ◌&&◌, ◌||◌, Option, none, some, ◌≡◌, subst, arith, if◌then◌else◌,
  str_eq,
}
use coin_bot.Double.{Double, ◌≤?◌}
use coin_bot.Domain.Order.{OrderRequest}
use coin_bot.Domain.Account.{AppConfig, Candle}
use coin_bot.Strategy.Types.{AccountSnapshot, Decision, Snapshot, can_sell, no_action}
use coin_bot.Strategy.State.{
  RsiMeanReversionStrategy, State, make_identifier, make_market_buy_by_amount,
  make_market_sell_by_volume,
}
use coin_bot.Strategy.Decide.{
  on_candle, on_intrabar_candle, act, adjust, build_snapshot, maybe_enter, maybe_exit, exit_for,
  sell_all, place, same_ts, has_prices, at_or_below, at_or_above, exit_reason,
}
use coin_bot.Strategy.Follow.{on_submit_failed}

module _ {D : Type 0} ⦃d : Double D⦄ where
  -- The strategy when it has taken a closed candle in, and the account's holdings, and is about to decide.
  abbrev pub about_to_decide :
      AppConfig D
      → Candle D
      → AccountSnapshot D
      → RsiMeanReversionStrategy D
      → RsiMeanReversionStrategy D
  about_to_decide cfg c account s =
      let (snapshot, s') =
        build_snapshot c (record s { last_candle_ts = some c.start_timestamp }) in
      adjust cfg snapshot.close account s'

  -- From the strategy `s`, one that stands as `before` asks for an order and then is `after`.
  pub data Asks (s : RsiMeanReversionStrategy D)
      : RsiMeanReversionStrategy D → RsiMeanReversionStrategy D → Type 0 where
    at_close :
        (cfg : AppConfig D) (uuid : String) (c : Candle D) (a : AccountSnapshot D)
        (req : OrderRequest D)
        → (on_candle cfg uuid c a s).0.order ≡ some req
        → Asks s (about_to_decide cfg c a s) (on_candle cfg uuid c a s).1
    while_moving :
        (cfg : AppConfig D) (uuid : String) (close : D) (a : AccountSnapshot D)
        (req : OrderRequest D)
        → (on_intrabar_candle cfg uuid close a s).0.order ≡ some req
        → Asks s s (on_intrabar_candle cfg uuid close a s).1

  -- The strategy `s'` waits for no order, and otherwise stands as `s`.
  pub record IsBack (s s' : RsiMeanReversionStrategy D) : Type 0 where
    pub waits : s'.pending_client_id ≡ none
    pub state : s'.state ≡ s.state
    pub entry : s'.entry_price ≡ s.entry_price
    pub stop : s'.stop_price ≡ s.stop_price
    pub target : s'.target_price ≡ s.target_price
    pub rsi : s'.rsi ≡ s.rsi
    pub close_n : s'.close_n ≡ s.close_n
    pub vol : s'.vol ≡ s.vol

  abbrev Undone :
      RsiMeanReversionStrategy D → Option (OrderRequest D) → RsiMeanReversionStrategy D → Type 0
  Undone s none s' = Unit
  Undone s (some req) s' = IsBack s (on_submit_failed s')

  unless-Undone :
      (s : RsiMeanReversionStrategy D) (b : Bool) (r : Decision D × RsiMeanReversionStrategy D)
      (s' : RsiMeanReversionStrategy D)
      → Undone s r.0.order r.1
      → let r' = if b then (no_action, s') else r in Undone s r'.0.order r'.1
  unless-Undone s true r s' h = tt
  unless-Undone s false r s' h = h

  maybe_enter-Undone :
      (cfg : AppConfig D) (uuid : String) (t : Snapshot D) (a : AccountSnapshot D)
      (s : RsiMeanReversionStrategy D)
      → s.state ≡ State.flat
      → let r = maybe_enter cfg uuid t a s in Undone s r.0.order r.1
  unfolding maybe_enter place make_identifier make_market_buy_by_amount on_submit_failed
  maybe_enter-Undone cfg uuid t a s flat = ground arith

  exit_for-Undone :
      (cfg : AppConfig D) (uuid : String) (t : Snapshot D) (a : AccountSnapshot D) (tag : String)
      (s : RsiMeanReversionStrategy D)
      → s.state ≡ State.in_position
      → let r = exit_for cfg uuid t a tag s in Undone s r.0.order r.1
  unfolding exit_for sell_all place make_identifier make_market_sell_by_volume on_submit_failed
  exit_for-Undone cfg uuid t a tag s held = ground arith

  maybe_exit-Undone :
      (cfg : AppConfig D) (uuid : String) (t : Snapshot D) (a : AccountSnapshot D)
      (s : RsiMeanReversionStrategy D)
      → s.state ≡ State.in_position
      → let r = maybe_exit cfg uuid t a s in Undone s r.0.order r.1
  unfolding maybe_exit
  maybe_exit-Undone cfg uuid t a s held =
      let rsi_exit = t.rsi.ready && (s.params.overbought ≤? t.rsi.v) in
      let hit_stop = has_prices s && at_or_below t.close s.stop_price in
      let hit_target = has_prices s && at_or_above t.close s.target_price in
      let tag = exit_reason hit_stop hit_target rsi_exit in
      let r = exit_for cfg uuid t a tag s in
      let none_due = not (hit_stop || hit_target || rsi_exit) in
      unless-Undone s (not (can_sell a)) (if none_due then (no_action, s) else r) s
        (unless-Undone s none_due r s (exit_for-Undone cfg uuid t a tag s held))

  act-Undone :
      (cfg : AppConfig D) (uuid : String) (t : Snapshot D) (a : AccountSnapshot D)
      (s : RsiMeanReversionStrategy D)
      → let r = act cfg uuid t a s in Undone s r.0.order r.1
  unfolding act
  act-Undone cfg uuid t a s =
      ground (arith, maybe_enter-Undone cfg uuid t a s, maybe_exit-Undone cfg uuid t a s)

  candle-Undone :
      (cfg : AppConfig D) (uuid : String) (c : Candle D) (a : AccountSnapshot D)
      (s : RsiMeanReversionStrategy D)
      → let r = on_candle cfg uuid c a s in Undone (about_to_decide cfg c a s) r.0.order r.1
  unfolding on_candle
  candle-Undone cfg uuid c a s =
      let (t, _) = build_snapshot c (record s { last_candle_ts = some c.start_timestamp }) in
      let s' = about_to_decide cfg c a s in
      let repeated = same_ts s.last_candle_ts c.start_timestamp in
      let r = act cfg uuid t a s' in
      unless-Undone s' (not (str_eq c.market s.market)) (if repeated then (no_action, s) else r) s
        (unless-Undone s' repeated r s (act-Undone cfg uuid t a s'))

  intrabar-Undone :
      (cfg : AppConfig D) (uuid : String) (close : D) (a : AccountSnapshot D)
      (s : RsiMeanReversionStrategy D)
      → let r = on_intrabar_candle cfg uuid close a s in Undone s r.0.order r.1
  unfolding on_intrabar_candle sell_all place make_identifier make_market_sell_by_volume
      on_submit_failed
  intrabar-Undone cfg uuid close a s = ground arith

  -- A strategy that asks for an order, on a closed candle or on one that is still moving, and is told that
  -- the order could not be sent, waits for none, and stands where it stood when it was about to decide: in
  -- the same state, with the same prices and indicators.
  pub failed_submit :
      (s before after : RsiMeanReversionStrategy D)
      → Asks s before after
      → IsBack before (on_submit_failed after)
  failed_submit s before after (at_close cfg uuid c a req e) =
      subst (λ o. Undone (about_to_decide cfg c a s) o (on_candle cfg uuid c a s).1) e
        (candle-Undone cfg uuid c a s)
  failed_submit s before after (while_moving cfg uuid close a req e) =
      subst (λ o. Undone s o (on_intrabar_candle cfg uuid close a s).1) e
        (intrabar-Undone cfg uuid close a s)
