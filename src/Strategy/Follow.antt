-- ===== src/Strategy/Follow.antt =====
-- `onFill`, `onOrderUpdate` and `onSubmitFailed` of strategies/RsiMeanReversionStrategy.cpp: how the
-- strategy follows the order that it has sent. The signal records that go to the callback are a
-- list; `now` is the time in milliseconds that they are stamped with.
use coin_bot.Base.{
  ℕ, String, Bool, false, not, ◌&&◌, Option, none, some, List, [], ◌∷◌, if◌then◌else◌, is_some,
  str_eq,
}
use coin_bot.Double.{Double, ◌⊕◌, ◌⊗◌, ◌⊘◌, ◌<?◌, lit}
use coin_bot.Domain.OrderTypes.{PositionEffect, is_done}
use coin_bot.Strategy.Types.{FillEvent, OrderStatusEvent, SignalRecord, SignalSide}
use coin_bot.Strategy.State.{
  RsiMeanReversionStrategy, State, clear_pending, clear_prices, set_entry,
}

-- Whether an event is about the order that is waited for.
abbrev pub is_mine : Option String → String → Bool
is_mine none identifier = false
is_mine (some cid) identifier = str_eq identifier cid

abbrev pub cid_of : Option String → String
cid_of none = ""
cid_of (some cid) = cid

module _ {D : Type 0} ⦃d : Double D⦄ where
  unfoldable pub on_fill : FillEvent D → RsiMeanReversionStrategy D → RsiMeanReversionStrategy D
  on_fill f s =
      if not (is_mine s.pending_client_id f.identifier)
      then s
      else if lit 0 <? f.filled_volume
      then record s {
        pending_last_price = f.fill_price;
        pending_filled_volume = s.pending_filled_volume ⊕ f.filled_volume;
        pending_cost_sum = s.pending_cost_sum ⊕ f.fill_price ⊗ f.filled_volume;
      }
      else record s { pending_last_price = f.fill_price }

  -- The mean price of the fills, or of the sums that the event carries, or the last price.
  unfoldable pub final_price : OrderStatusEvent D → RsiMeanReversionStrategy D → D
  final_price ev s =
      if lit 0 <? s.pending_filled_volume
      then s.pending_cost_sum ⊘ s.pending_filled_volume
      else if (lit 0 <? ev.executed_volume) && (lit 0 <? ev.executed_funds)
      then ev.executed_funds ⊘ ev.executed_volume
      else s.pending_last_price

  unfoldable pub filled_volume : OrderStatusEvent D → RsiMeanReversionStrategy D → D
  filled_volume ev s =
      if lit 0 <? s.pending_filled_volume then s.pending_filled_volume else ev.executed_volume

  abbrev pub when_ready : Bool → D → Option D
  when_ready ready v = if ready then some v else none

  -- The fields that all three kinds of record fill alike.
  unfoldable pub signal :
      ℕ → SignalSide → D → OrderStatusEvent D → RsiMeanReversionStrategy D → SignalRecord D
  unfolding filled_volume
  signal now side price ev s = record {
    market = s.market;
    identifier = cid_of s.pending_client_id;
    side = side;
    price = price;
    volume = filled_volume ev s;
    krw_amount = if lit 0 <? s.pending_cost_sum then s.pending_cost_sum else ev.executed_funds;
    stop_price = none;
    target_price = none;
    rsi = when_ready s.signal_snapshot.rsi.ready s.signal_snapshot.rsi.v;
    volatility = when_ready s.signal_snapshot.volatility.ready s.signal_snapshot.volatility.v;
    trend_strength = when_ready s.signal_snapshot.trend_ready s.signal_snapshot.trend_strength;
    is_partial = 0;
    exit_reason = "";
    ts_ms = now;
  }

  unfoldable pub buy_signal :
      ℕ → Option D → OrderStatusEvent D → RsiMeanReversionStrategy D → List (SignalRecord D)
  unfolding signal
  buy_signal now none ev s = []
  buy_signal now (some entry) ev s =
      if s.has_callback
      then record (signal now SignalSide.buy entry ev s) {
        stop_price = s.stop_price;
        target_price = s.target_price;
      }
        ∷ []
      else []

  unfoldable pub sell_signal :
      ℕ → Bool → ℕ → OrderStatusEvent D → RsiMeanReversionStrategy D → List (SignalRecord D)
  unfolding signal final_price
  sell_signal now worth_it is_partial ev s =
      if s.has_callback && worth_it
      then record (signal now SignalSide.sell (final_price ev s) ev s) {
        is_partial = is_partial;
        exit_reason = s.pending_exit_reason;
      }
        ∷ []
      else []

  unfoldable pub entered :
      ℕ
      → OrderStatusEvent D
      → RsiMeanReversionStrategy D
      → List (SignalRecord D) × RsiMeanReversionStrategy D
  unfolding final_price buy_signal
  entered now ev s =
      let price = final_price ev s in
      let s' = if lit 0 <? price then set_entry price s else s in
      (buy_signal now s'.entry_price ev s', record s' { state = State.in_position })

  abbrev pub roll_back : RsiMeanReversionStrategy D → RsiMeanReversionStrategy D
  roll_back s = elim (s.state) [
    | State.pending_entry ↦ record s { state = State.flat }
    | State.flat ↦ record s { state = State.in_position }
    | State.in_position ↦ s
    | State.pending_exit ↦ record s { state = State.in_position }
  ]

  unfoldable pub conclude_entry :
      ℕ
      → OrderStatusEvent D
      → PositionEffect
      → RsiMeanReversionStrategy D
      → List (SignalRecord D) × RsiMeanReversionStrategy D
  unfolding entered
  conclude_entry now ev PositionEffect.opened s = entered now ev s
  conclude_entry now ev PositionEffect.none s = ([], roll_back s)
  conclude_entry now ev PositionEffect.unknown s = ([], roll_back s)
  conclude_entry now ev PositionEffect.reduced s = ([], roll_back s)
  conclude_entry now ev PositionEffect.closed s = ([], roll_back s)

  unfoldable pub conclude_exit :
      ℕ
      → OrderStatusEvent D
      → PositionEffect
      → RsiMeanReversionStrategy D
      → List (SignalRecord D) × RsiMeanReversionStrategy D
  unfolding sell_signal filled_volume final_price
  conclude_exit now ev PositionEffect.reduced s =
      (sell_signal now (lit 0 <? filled_volume ev s) 1 ev s, record s { state = State.in_position })
  conclude_exit now ev PositionEffect.closed s = (
    sell_signal now (lit 0 <? final_price ev s) 0 ev s,
    clear_prices (record s { state = State.flat }),
  )
  conclude_exit now ev PositionEffect.none s = ([], roll_back s)
  conclude_exit now ev PositionEffect.unknown s = ([], roll_back s)
  conclude_exit now ev PositionEffect.opened s = ([], roll_back s)

  -- By the state first, then by the effect; any other pair rolls the state back.
  unfoldable pub conclude :
      ℕ
      → OrderStatusEvent D
      → RsiMeanReversionStrategy D
      → List (SignalRecord D) × RsiMeanReversionStrategy D
  unfolding conclude_entry conclude_exit
  conclude now ev s = elim (s.state) [
    | State.pending_entry ↦ conclude_entry now ev ev.position_effect s
    | State.pending_exit ↦ conclude_exit now ev ev.position_effect s
    | State.flat ↦ ([], roll_back s)
    | State.in_position ↦ ([], roll_back s)
  ]

  unfoldable pub on_order_update :
      ℕ
      → OrderStatusEvent D
      → RsiMeanReversionStrategy D
      → List (SignalRecord D) × RsiMeanReversionStrategy D
  unfolding conclude
  on_order_update now ev s =
      if not (is_mine s.pending_client_id ev.identifier)
      then ([], s)
      else if not (is_done ev.status)
      then ([], s)
      else let (signals, s') = conclude now ev s in (signals, clear_pending s')

  unfoldable pub on_submit_failed : RsiMeanReversionStrategy D → RsiMeanReversionStrategy D
  on_submit_failed s =
      if not (is_some s.pending_client_id)
      then s
      else clear_pending (elim (s.state) [
        | State.pending_entry ↦ record s { state = State.flat }
        | State.pending_exit ↦ record s { state = State.in_position }
        | State.flat ↦ s
        | State.in_position ↦ s
      ])
