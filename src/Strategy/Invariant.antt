-- ===== src/Strategy/Invariant.antt =====
-- The strategy's state, the order that it waits for and its prices, before and after each call.
use coin_bot.Base.{
  ℕ, String, Bool, true, false, not, ◌||◌, none, some, ◌≡◌, refl, inl, inr, arith, Bool-cases,
  is_some, str_eq,
}
use coin_bot.Double.{Double, lit}
use coin_bot.Domain.Account.{AppConfig, Candle}
use coin_bot.Indicators.Rsi.{RsiWilder}
use coin_bot.Strategy.Types.{
  AccountSnapshot, PositionSnapshot, Snapshot, FillEvent, OrderStatusEvent,
}
use coin_bot.Strategy.State.{
  RsiMeanReversionStrategy, Params, State, construct, reset, sync_on_start, set_stops_from_entry,
}
use coin_bot.Strategy.Decide.{
  on_candle, on_intrabar_candle, act, adjust, build_snapshot, maybe_enter, maybe_exit, exit_for,
  sell_all, place, same_ts,
}
use coin_bot.Strategy.Follow.{
  on_fill, on_order_update, on_submit_failed, conclude, conclude_entry, conclude_exit, entered,
}

abbrev pub is_pending : State → Bool
is_pending State.flat = false
is_pending State.pending_entry = true
is_pending State.in_position = false
is_pending State.pending_exit = true

-- Whether the strategy holds a position, as it believes.
abbrev pub is_entered : State → Bool
is_entered State.flat = false
is_entered State.pending_entry = false
is_entered State.in_position = true
is_entered State.pending_exit = true

module _ {D : Type 0} where
  pub record IsCoherent (s : RsiMeanReversionStrategy D) : Type 0 where
    pub waits : is_pending s.state ≡ is_some s.pending_client_id
    pub unpriced : is_entered s.state || not (is_some s.entry_price) ≡ true
    pub stops : is_some s.entry_price ≡ is_some s.stop_price
    pub targets : is_some s.entry_price ≡ is_some s.target_price

module _ {D : Type 0} ⦃d : Double D⦄ where
  pub construct-IsCoherent :
      (r : RsiWilder D) (market : String) (p : Params D) → IsCoherent (construct r market p)
  unfolding construct reset
  construct-IsCoherent r market p = record {
    waits = refl;
    unpriced = refl;
    stops = refl;
    targets = refl;
  }

  reset-IsCoherent : (s : RsiMeanReversionStrategy D) → IsCoherent (reset s)
  unfolding reset
  reset-IsCoherent s = record { waits = refl; unpriced = refl; stops = refl; targets = refl }

  pub sync_on_start-IsCoherent :
      (pos : PositionSnapshot D) (s : RsiMeanReversionStrategy D) → IsCoherent (sync_on_start pos s)
  unfolding sync_on_start set_stops_from_entry
  sync_on_start-IsCoherent pos s = ground arith

  pub on_fill-IsCoherent :
      (f : FillEvent D) (s : RsiMeanReversionStrategy D) → IsCoherent s → IsCoherent (on_fill f s)
  unfolding on_fill
  on_fill-IsCoherent f s h = ground arith

  pub on_submit_failed-IsCoherent :
      (s : RsiMeanReversionStrategy D) → IsCoherent s → IsCoherent (on_submit_failed s)
  unfolding on_submit_failed
  on_submit_failed-IsCoherent s h = ground arith

  -- An order that has come to its end leaves the strategy waiting for none.
  conclude-IsCoherent :
      (now : ℕ) (ev : OrderStatusEvent D) (s : RsiMeanReversionStrategy D)
      → IsCoherent s
      → IsCoherent (record (conclude now ev s).1 {
        pending_client_id = none;
        pending_exit_reason = "";
        pending_filled_volume = lit 0;
        pending_cost_sum = lit 0;
        pending_last_price = lit 0;
      })
  unfolding conclude conclude_entry conclude_exit entered set_stops_from_entry
  conclude-IsCoherent now ev s h = ground arith

  pub on_order_update-IsCoherent :
      (now : ℕ) (ev : OrderStatusEvent D) (s : RsiMeanReversionStrategy D)
      → IsCoherent s
      → IsCoherent (on_order_update now ev s).1
  unfolding on_order_update
  on_order_update-IsCoherent now ev s h = ground (arith, conclude-IsCoherent now ev s h)

  maybe_enter-IsCoherent :
      (cfg : AppConfig D) (uuid : String) (t : Snapshot D) (a : AccountSnapshot D)
      (s : RsiMeanReversionStrategy D)
      → s.state ≡ State.flat
      → IsCoherent s
      → IsCoherent (maybe_enter cfg uuid t a s).1
  unfolding maybe_enter place
  maybe_enter-IsCoherent cfg uuid t a s e h = ground arith

  maybe_exit-IsCoherent :
      (cfg : AppConfig D) (uuid : String) (t : Snapshot D) (a : AccountSnapshot D)
      (s : RsiMeanReversionStrategy D)
      → s.state ≡ State.in_position
      → IsCoherent s
      → IsCoherent (maybe_exit cfg uuid t a s).1
  unfolding maybe_exit exit_for sell_all place
  maybe_exit-IsCoherent cfg uuid t a s e h = ground arith

  act-IsCoherent :
      (cfg : AppConfig D) (uuid : String) (t : Snapshot D) (a : AccountSnapshot D)
      (s : RsiMeanReversionStrategy D)
      → IsCoherent s
      → IsCoherent (act cfg uuid t a s).1
  unfolding act
  act-IsCoherent cfg uuid t a s h =
      ground (arith, maybe_enter-IsCoherent cfg uuid t a s, maybe_exit-IsCoherent cfg uuid t a s)

  pub adjust-IsCoherent :
      (cfg : AppConfig D) (close : D) (a : AccountSnapshot D) (s : RsiMeanReversionStrategy D)
      → IsCoherent s
      → IsCoherent (adjust cfg close a s)
  unfolding adjust set_stops_from_entry
  adjust-IsCoherent cfg close a s h = ground arith

  pub on_candle-IsCoherent :
      (cfg : AppConfig D) (uuid : String) (c : Candle D) (a : AccountSnapshot D)
      (s : RsiMeanReversionStrategy D)
      → IsCoherent s
      → IsCoherent (on_candle cfg uuid c a s).1
  unfolding on_candle build_snapshot
  on_candle-IsCoherent cfg uuid c a s h = elim (Bool-cases (str_eq c.market s.market)) [
    | inr e ↦ rw e h
    | inl e ↦ elim (Bool-cases (same_ts s.last_candle_ts c.start_timestamp)) [
      | inl f ↦ rw (e, f) h
      | inr f ↦
          let (t, s') = build_snapshot c (record s { last_candle_ts = some c.start_timestamp }) in
          rw (e, f)
            (act-IsCoherent cfg uuid t a (adjust cfg t.close a s') (
              adjust-IsCoherent cfg t.close a s' (record {
                waits = h.waits;
                unpriced = h.unpriced;
                stops = h.stops;
                targets = h.targets;
              })))
    ]
  ]

  pub on_intrabar_candle-IsCoherent :
      (cfg : AppConfig D) (uuid : String) (close : D) (a : AccountSnapshot D)
      (s : RsiMeanReversionStrategy D)
      → IsCoherent s
      → IsCoherent (on_intrabar_candle cfg uuid close a s).1
  unfolding on_intrabar_candle sell_all place
  on_intrabar_candle-IsCoherent cfg uuid close a s h = ground arith

-- One call of a method. The callback's registration changes nothing that is in question here.
pub data Step {D : Type 0} ⦃d : Double D⦄ (cfg : AppConfig D)
    : RsiMeanReversionStrategy D → RsiMeanReversionStrategy D → Type 0 where
  resets : (s : RsiMeanReversionStrategy D) → Step cfg s (reset s)
  syncs :
      (s : RsiMeanReversionStrategy D) (pos : PositionSnapshot D) → Step cfg s (sync_on_start pos s)
  closes :
      (s : RsiMeanReversionStrategy D) (uuid : String) (c : Candle D) (a : AccountSnapshot D)
      → Step cfg s (on_candle cfg uuid c a s).1
  moves :
      (s : RsiMeanReversionStrategy D) (uuid : String) (close : D) (a : AccountSnapshot D)
      → Step cfg s (on_intrabar_candle cfg uuid close a s).1
  fills : (s : RsiMeanReversionStrategy D) (f : FillEvent D) → Step cfg s (on_fill f s)
  updates :
      (s : RsiMeanReversionStrategy D) (now : ℕ) (ev : OrderStatusEvent D)
      → Step cfg s (on_order_update now ev s).1
  fails : (s : RsiMeanReversionStrategy D) → Step cfg s (on_submit_failed s)

pub data Reach {D : Type 0} ⦃d : Double D⦄ (cfg : AppConfig D) (s : RsiMeanReversionStrategy D)
    : RsiMeanReversionStrategy D → Type 0 where
  here : Reach cfg s s
  next : {s' s'' : RsiMeanReversionStrategy D} → Reach cfg s s' → Step cfg s' s'' → Reach cfg s s''

module _ {D : Type 0} ⦃d : Double D⦄ (cfg : AppConfig D) where
  Step-IsCoherent :
      {s s' : RsiMeanReversionStrategy D} → Step cfg s s' → IsCoherent s → IsCoherent s'
  Step-IsCoherent (resets s) h = reset-IsCoherent s
  Step-IsCoherent (syncs s pos) h = sync_on_start-IsCoherent pos s
  Step-IsCoherent (closes s uuid c a) h = on_candle-IsCoherent cfg uuid c a s h
  Step-IsCoherent (moves s uuid close a) h = on_intrabar_candle-IsCoherent cfg uuid close a s h
  Step-IsCoherent (fills s f) h = on_fill-IsCoherent f s h
  Step-IsCoherent (updates s now ev) h = on_order_update-IsCoherent now ev s h
  Step-IsCoherent (fails s) h = on_submit_failed-IsCoherent s h

  walk-IsCoherent :
      {s s' : RsiMeanReversionStrategy D} → IsCoherent s → Reach cfg s s' → IsCoherent s'
  walk-IsCoherent h here = h
  walk-IsCoherent h (next r st) = Step-IsCoherent st (walk-IsCoherent h r)

  -- From its construction on, whatever calls reach it in whatever order, the strategy waits for an
  -- order exactly in its two pending states, has no entry price while it is flat or about to enter,
  -- and has a stop and a target exactly when it has an entry price.
  pub Reach-IsCoherent :
      (r : RsiWilder D) (market : String) (p : Params D) {s : RsiMeanReversionStrategy D}
      → Reach cfg (construct r market p) s
      → IsCoherent s
  Reach-IsCoherent r market p walk = walk-IsCoherent (construct-IsCoherent r market p) walk
