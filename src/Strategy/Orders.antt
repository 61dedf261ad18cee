-- ===== src/Strategy/Orders.antt =====
-- The orders that `onCandle` and `onIntrabarCandle` give, against the checks of the engine.
use coin_bot.Base.{
  String, Bool, true, false, not, Option, none, some, ◌≡◌, refl, sym, ap, ◌∙◌, inl, inr, arith,
  Bool-cases, if◌then◌else◌, is_empty, str_eq,
}
use coin_bot.Double.{Double, ◌<?◌, ◌≤?◌, lit}
use coin_bot.Double.Exact.{IsExact, lt_parts, le_parts}
use coin_bot.Domain.Order.{OrderRequest}
use coin_bot.Domain.Account.{AppConfig, Candle}
use coin_bot.Domain.OrderTypes.{is_bid}
use coin_bot.Engine.Request.{validate_request}
use coin_bot.Strategy.Types.{AccountSnapshot, Decision, Snapshot, can_sell, no_action}
use coin_bot.Strategy.State.{
  RsiMeanReversionStrategy, State, make_identifier, make_market_buy_by_amount,
  make_market_sell_by_volume, set_stops_from_entry,
}
use coin_bot.Strategy.Decide.{
  on_candle, on_intrabar_candle, act, adjust, build_snapshot, maybe_enter, maybe_exit, exit_for,
  sell_all, place, same_ts,
}
use coin_bot.Strategy.Invariant.{IsCoherent, adjust-IsCoherent}

abbrev waits_in : Bool → State
waits_in true = State.pending_entry
waits_in false = State.pending_exit

module _ {D : Type 0} ⦃d : Double D⦄ where
  pub record IsPlaced (s : RsiMeanReversionStrategy D) (req : OrderRequest D)
      (s' : RsiMeanReversionStrategy D) : Type 0 where
    -- no order was waited for, and now this one is
    pub idle : s.pending_client_id ≡ none
    pub awaited : s'.pending_client_id ≡ some req.identifier
    pub waiting : s'.state ≡ waits_in (is_bid req.position)
    -- what `validateRequest` and the engine's test of the market ask for
    pub accepted : validate_request req ≡ true
    pub market : req.market ≡ s.market

  -- What holds of the strategy after a decision: an order was placed, or none is newly waited for.
  abbrev pub Answers :
      RsiMeanReversionStrategy D → Option (OrderRequest D) → RsiMeanReversionStrategy D → Type 0
  Answers s none s' = s'.pending_client_id ≡ s.pending_client_id
  Answers s (some req) s' = IsPlaced s req s'

  unless-Answers :
      (s : RsiMeanReversionStrategy D) (b : Bool) (r : Decision D × RsiMeanReversionStrategy D)
      → Answers s r.0.order r.1
      → let r' = if b then (no_action, s) else r in Answers s r'.0.order r'.1
  unless-Answers s true r h = refl
  unless-Answers s false r h = h

  -- An answer is about the market and the order that was waited for, and nothing else.
  Answers-of :
      (s s' : RsiMeanReversionStrategy D) (o : Option (OrderRequest D))
      (s'' : RsiMeanReversionStrategy D)
      → s'.pending_client_id ≡ s.pending_client_id
      → s'.market ≡ s.market
      → Answers s' o s''
      → Answers s o s''
  Answers-of s s' none s'' e f h = h ∙ e
  Answers-of s s' (some req) s'' e f h = record {
    idle = sym e ∙ h.idle;
    awaited = h.awaited;
    waiting = h.waiting;
    accepted = h.accepted;
    market = h.market ∙ f;
  }

  adjust_keeps :
      (cfg : AppConfig D) (close : D) (a : AccountSnapshot D) (s : RsiMeanReversionStrategy D)
      → ((adjust cfg close a s).pending_client_id ≡ s.pending_client_id)
        × ((adjust cfg close a s).market ≡ s.market)
  unfolding adjust set_stops_from_entry
  adjust_keeps cfg close a s = ground arith

module _ {D : Type 0} ⦃d : Double D⦄ ⦃exact_D : IsExact D⦄ where
  not_le_zero : (a : D) → (lit 0 <? a) ≡ true → (a ≤? lit 0) ≡ false
  not_le_zero a h = ground (arith, lt_parts (lit 0) a, le_parts a (lit 0))

  sell_is_valid :
      (v : D) (tag cid : String) (s : RsiMeanReversionStrategy D)
      → is_empty s.market ≡ false
      → (lit 0 <? v) ≡ true
      → validate_request (record (make_market_sell_by_volume v tag s) { identifier = cid }) ≡ true
  unfolding validate_request make_market_sell_by_volume
  sell_is_valid v tag cid s named pos = ground (arith, not_le_zero v pos)

  buy_is_valid :
      (krw : D) (tag cid : String) (s : RsiMeanReversionStrategy D)
      → is_empty s.market ≡ false
      → (krw ≤? lit 0) ≡ false
      → validate_request (record (make_market_buy_by_amount krw tag s) { identifier = cid }) ≡ true
  unfolding validate_request make_market_buy_by_amount
  buy_is_valid krw tag cid s named pos = ground arith

  maybe_enter-Answers :
      (cfg : AppConfig D) (uuid : String) (t : Snapshot D) (a : AccountSnapshot D)
      (s : RsiMeanReversionStrategy D)
      → is_empty s.market ≡ false
      → s.pending_client_id ≡ none
      → let r = maybe_enter cfg uuid t a s in Answers s r.0.order r.1
  unfolding maybe_enter place make_identifier make_market_buy_by_amount validate_request
  maybe_enter-Answers cfg uuid t a s named idle = ground arith

  exit_for-Answers :
      (cfg : AppConfig D) (uuid : String) (t : Snapshot D) (a : AccountSnapshot D) (tag : String)
      (s : RsiMeanReversionStrategy D)
      → is_empty s.market ≡ false
      → s.pending_client_id ≡ none
      → can_sell a ≡ true
      → let r = exit_for cfg uuid t a tag s in Answers s r.0.order r.1
  unfolding exit_for sell_all place make_identifier make_market_sell_by_volume validate_request
  exit_for-Answers cfg uuid t a tag s named idle rich =
      ground (arith, not_le_zero a.coin_available rich)

  maybe_exit-Answers :
      (cfg : AppConfig D) (uuid : String) (t : Snapshot D) (a : AccountSnapshot D)
      (s : RsiMeanReversionStrategy D)
      → is_empty s.market ≡ false
      → s.pending_client_id ≡ none
      → let r = maybe_exit cfg uuid t a s in Answers s r.0.order r.1
  unfolding maybe_exit
  maybe_exit-Answers cfg uuid t a s named idle = elim (Bool-cases (can_sell a)) [
    | inr e ↦ rw e refl
    | inl rich ↦ rw rich (unless-Answers s _ _ (exit_for-Answers cfg uuid t a _ s named idle rich))
  ]

  act-Answers :
      (cfg : AppConfig D) (uuid : String) (t : Snapshot D) (a : AccountSnapshot D)
      (s : RsiMeanReversionStrategy D)
      → is_empty s.market ≡ false
      → IsCoherent s
      → let r = act cfg uuid t a s in Answers s r.0.order r.1
  unfolding act
  act-Answers cfg uuid t a s named h = ground (
    arith,
    h.waits,
    maybe_enter-Answers cfg uuid t a s named,
    maybe_exit-Answers cfg uuid t a s named,
  )

  intrabar-Answers :
      (cfg : AppConfig D) (uuid : String) (close : D) (a : AccountSnapshot D)
      (s : RsiMeanReversionStrategy D)
      → is_empty s.market ≡ false
      → IsCoherent s
      → let r = on_intrabar_candle cfg uuid close a s in Answers s r.0.order r.1
  unfolding on_intrabar_candle sell_all place make_identifier make_market_sell_by_volume
      validate_request
  intrabar-Answers cfg uuid close a s named h =
      ground (arith, h.waits, not_le_zero a.coin_available)

  candle-Answers :
      (cfg : AppConfig D) (uuid : String) (c : Candle D) (a : AccountSnapshot D)
      (s : RsiMeanReversionStrategy D)
      → is_empty s.market ≡ false
      → IsCoherent s
      → let r = on_candle cfg uuid c a s in Answers s r.0.order r.1
  unfolding on_candle build_snapshot
  candle-Answers cfg uuid c a s named h =
      let (t, s') = build_snapshot c (record s { last_candle_ts = some c.start_timestamp }) in
      let s'' = adjust cfg t.close a s' in
      let (same_id, same_market) = adjust_keeps cfg t.close a s' in
      let h' : IsCoherent s' = record {
        waits = h.waits;
        unpriced = h.unpriced;
        stops = h.stops;
        targets = h.targets;
      } in
      let r = act cfg uuid t a s'' in
      let repeated = same_ts s.last_candle_ts c.start_timestamp in
      unless-Answers s (not (str_eq c.market s.market)) (if repeated then (no_action, s) else r) (
        unless-Answers s repeated r (
          Answers-of s s'' r.0.order r.1 same_id same_market (
            act-Answers cfg uuid t a s'' (ap is_empty same_market ∙ named)
              (adjust-IsCoherent cfg t.close a s' h'))))

  -- On a closed candle as on one that is still moving, a strategy whose market has a name gives an
  -- order only when it waits for none. It then waits for this one, in the state that fits the side;
  -- the order is for its market, and the engine's checks accept it. Without an order, what it waits
  -- for stays as it was.
  pub orders_one_at_a_time :
      (cfg : AppConfig D) (uuid : String) (c : Candle D) (close : D) (a : AccountSnapshot D)
      (s : RsiMeanReversionStrategy D)
      → is_empty s.market ≡ false
      → IsCoherent s
      → (let r = on_candle cfg uuid c a s in Answers s r.0.order r.1)
        × (let r = on_intrabar_candle cfg uuid close a s in Answers s r.0.order r.1)
  orders_one_at_a_time cfg uuid c close a s named h =
      (candle-Answers cfg uuid c a s named h, intrabar-Answers cfg uuid close a s named h)
