-- ===== src/Manager/Confirmed.antt =====
-- The candles that `handleMarketData_` records, against the list of updates that it is given.
use coin_bot.Base.{
  ℕ, String, Bool, true, ◌&&◌, Option, none, some, List, [], ◌∷◌, ◌++◌, append-nil, append_assoc,
  map, ◌≡◌, refl, ap, sym, ◌∙◌, inl, inr, arith, Bool-cases, if◌then◌else◌, is_some, str_eq,
}
use mathlib.Core.List.{map-append}
use coin_bot.Double.{Double}
use coin_bot.Domain.Account.{Candle}
use coin_bot.Domain.Order.{OrderRequest}
use coin_bot.Json.{Json}
use coin_bot.Engine.{PostResult, submit, set_mark_price}
use coin_bot.Upbit.Messages.{WsCandleResult, Parsed, thrown, dropped, parsed, parse_candle}
use coin_bot.Manager.{
  Setup, Outside, Worker, Row, candle_row, set_strategy, set_world, build_account_snapshot,
}
use coin_bot.Strategy.Decide.{on_candle, on_intrabar_candle}
use coin_bot.Manager.Candles.{
  send, note_failure, decide_moving, intrabar_check, close_candle, take_candle, take_parsed,
  handle_market_data, set_pending,
}

module _ {D : Type 0} where
  -- The updates that are the last of their candle, each with the unit of the update after it.
  unfoldable pub closings : List (WsCandleResult D) → List (Candle D × ℕ)
  closings [] = []
  closings (r ∷ []) = []
  closings (r ∷ next ∷ rs) =
      let rest = closings (next ∷ rs) in
      if str_eq r.candle.start_timestamp next.candle.start_timestamp
      then rest
      else (r.candle, next.unit_minutes) ∷ rest

  unfoldable pub last_of : Option (Candle D) → List (WsCandleResult D) → Option (Candle D)
  last_of c [] = c
  last_of c (r ∷ rs) = last_of (some r.candle) rs

  unfoldable pub row_of : String → Candle D × ℕ → Row D
  row_of market (c, unit) = candle_row market c unit

  -- The candle that is pending, as an update before all others.
  abbrev pub front : Option (Candle D) → List (WsCandleResult D) → List (WsCandleResult D)
  front none rs = rs
  front (some c) rs = record { candle = c; unit_minutes = 0 } ∷ rs

  unfoldable pub with_candle : Parsed D → List (WsCandleResult D) → List (WsCandleResult D)
  with_candle thrown rs = rs
  with_candle dropped rs = rs
  with_candle (parsed r) rs = r ∷ rs

  -- What the decisions of the strategy leave as it is.
  record Keeps (w w' : Worker D) : Type 0 where
    rows : w'.rows ≡ w.rows
    market : w'.ctx.market ≡ w.ctx.market
    pending : w'.ctx.pending_candle ≡ w.ctx.pending_candle

  Keeps-refl : (w : Worker D) → Keeps w w
  Keeps-refl w = record { rows = refl; market = refl; pending = refl }

  Keeps-trans : {w w' w'' : Worker D} → Keeps w w' → Keeps w' w'' → Keeps w w''
  Keeps-trans k l = record {
    rows = l.rows ∙ k.rows;
    market = l.market ∙ k.market;
    pending = l.pending ∙ k.pending;
  }

module _ {J D : Type 0} (json : Json J D) ⦃d : Double D⦄ where
  -- The updates that a list of messages holds.
  unfoldable pub updates : ℕ → List (Outside D × String) → List (WsCandleResult D)
  updates unit [] = []
  updates unit ((x, text) ∷ texts) = with_candle (parse_candle json unit text) (updates unit texts)

  unfoldable pub handle_all : Setup D → List (Outside D × String) → Worker D → Worker D
  handle_all setup [] w = w
  handle_all setup ((x, text) ∷ texts) w =
      handle_all setup texts (handle_market_data json setup x text w).1

module _ {D : Type 0} ⦃d : Double D⦄ where
  send-Keeps :
      (setup : Setup D) (post : OrderRequest D → PostResult) (o : Option (OrderRequest D))
      (w : Worker D)
      → Keeps w (send setup post o w).1
  unfolding send
  send-Keeps setup post none w = Keeps-refl w
  send-Keeps setup post (some req) w =
      elim (Bool-cases (submit setup.app post req w.world).0.success) [
        | inl e ↦ rw e (record { rows = refl; market = refl; pending = refl })
        | inr e ↦ rw e (record { rows = refl; market = refl; pending = refl })
      ]

  note_failure-Keeps : (b : Bool) (w : Worker D) → Keeps w (note_failure (b, w))
  unfolding note_failure
  note_failure-Keeps b w = elim (Bool-cases (b && is_some w.ctx.pending_candle)) [
    | inl e ↦ rw e (record { rows = refl; market = refl; pending = refl })
    | inr e ↦ rw e (Keeps-refl w)
  ]

  decide_moving-Keeps :
      (setup : Setup D) (x : Outside D) (close : D) (w : Worker D)
      → Keeps w (decide_moving setup x close w)
  unfolding decide_moving build_account_snapshot
  decide_moving-Keeps setup x close w =
      let account = build_account_snapshot w.ctx.market w.world.accounts in
      let (decision, s) = on_intrabar_candle setup.app x.uuid_moving close account w.ctx.strategy in
      let sent = send setup x.post_moving decision.order (set_strategy w s) in
      let k = send-Keeps setup x.post_moving decision.order (set_strategy w s) in
      Keeps-trans (record { rows = k.rows; market = k.market; pending = k.pending })
        (note_failure-Keeps sent.0 sent.1)

  intrabar_check-Keeps :
      (setup : Setup D) (x : Outside D) (close : D) (w : Worker D)
      → Keeps w (intrabar_check setup x close w)
  unfolding intrabar_check
  intrabar_check-Keeps setup x close w =
      let w' = set_world w (set_mark_price close w.world) in
      let k = decide_moving-Keeps setup x close w' in
      let here : Keeps w w' = record { rows = refl; market = refl; pending = refl } in
      ground (arith, here, Keeps-trans here k)

  -- What a candle that is closed leaves: its row is written.
  record Closes (row : Row D) (w w' : Worker D) : Type 0 where
    rows : w'.rows ≡ w.rows ++ (row ∷ [])
    market : w'.ctx.market ≡ w.ctx.market
    pending : w'.ctx.pending_candle ≡ w.ctx.pending_candle

  close_candle-Closes :
      (setup : Setup D) (x : Outside D) (c : Candle D) (unit : ℕ) (w : Worker D)
      → setup.has_db ≡ true
      → Closes (candle_row w.ctx.market c unit) w (close_candle setup x c unit w)
  unfolding close_candle build_account_snapshot
  close_candle-Closes setup x c unit w db =
      let row = candle_row w.ctx.market c unit in
      let w' = record w { rows = w.rows ++ (row ∷ []) } in
      let w'' = set_world w' (set_mark_price c.close_price w'.world) in
      let account = build_account_snapshot w''.ctx.market w''.world.accounts in
      let (decision, s) = on_candle setup.app x.uuid_close c account w''.ctx.strategy in
      let k = send-Keeps setup x.post_close decision.order (set_strategy w'' s) in
      rw db (record { rows = k.rows; market = k.market; pending = k.pending })

  -- What one update leaves.
  record Takes (r : WsCandleResult D) (w w' : Worker D) : Type 0 where
    rows :
        w'.rows
        ≡ w.rows ++ map (row_of w.ctx.market) (closings (front w.ctx.pending_candle (r ∷ [])))
    market : w'.ctx.market ≡ w.ctx.market
    pending : w'.ctx.pending_candle ≡ some r.candle

  checked-Takes :
      (r : WsCandleResult D) (w w' w'' : Worker D) → Takes r w w' → Keeps w' w'' → Takes r w w''
  checked-Takes r w w' w'' t k = record {
    rows = k.rows ∙ t.rows;
    market = k.market ∙ t.market;
    pending = k.pending ∙ t.pending;
  }

  take_candle-Takes :
      (setup : Setup D) (x : Outside D) (r : WsCandleResult D) (p : Option (Candle D))
      (w : Worker D)
      → setup.has_db ≡ true
      → w.ctx.pending_candle ≡ p
      → Takes r w (take_candle setup x r.candle r.unit_minutes p w)
  unfolding take_candle closings row_of
  take_candle-Takes setup x r none w db e =
      let w' = set_pending r.candle w in
      checked-Takes r w w' _
        (record { rows = sym (rw e (append-nil w.rows)); market = refl; pending = refl })
        (intrabar_check-Keeps setup x r.candle.close_price w')
  take_candle-Takes setup x r (some c) w db e =
      let w' = set_pending r.candle w in
      elim (Bool-cases (str_eq c.start_timestamp r.candle.start_timestamp)) [
        | inl same ↦ rw same (
            checked-Takes r w w' _
              (record {
                rows = sym (rw (e, same) (append-nil w.rows));
                market = refl;
                pending = refl;
              })
              (intrabar_check-Keeps setup x r.candle.close_price w'))
        | inr other ↦
            let closed = close_candle-Closes setup x c r.unit_minutes w' db in
            rw other (
              checked-Takes r w (close_candle setup x c r.unit_minutes w') _
                (record {
                  rows = closed.rows ∙ rw (e, other) refl;
                  market = closed.market;
                  pending = closed.pending;
                })
                (intrabar_check-Keeps setup x r.candle.close_price _))
      ]

module _ {D : Type 0} where
  closings_split :
      (p : Option (Candle D)) (r : WsCandleResult D) (rs : List (WsCandleResult D))
      → closings (front p (r ∷ rs))
        ≡ closings (front p (r ∷ [])) ++ closings (front (some r.candle) rs)
  unfolding closings
  closings_split none r [] = refl
  closings_split none r (next ∷ rs) = refl
  closings_split (some c) r [] = ground arith
  closings_split (some c) r (next ∷ rs) = ground arith

  none_closed :
      (market : String) (p : Option (Candle D)) (rows : List (Row D))
      → rows ++ map (row_of market) (closings (front p [])) ≡ rows
  unfolding closings
  none_closed market none rows = append-nil rows
  none_closed market (some c) rows = append-nil rows

  -- What a worker's candle handler has recorded of the updates `rs`.
  abbrev pub Records : List (WsCandleResult D) → Worker D → Worker D → Type 0
  Records rs w w' =
      (w'.rows ≡ w.rows ++ map (row_of w.ctx.market) (closings (front w.ctx.pending_candle rs)))
      × (w'.ctx.pending_candle ≡ last_of w.ctx.pending_candle rs)

module _ {D : Type 0} ⦃d : Double D⦄ where
  taken-Records :
      (r : WsCandleResult D) (rs : List (WsCandleResult D)) (w w' w'' : Worker D)
      → Takes r w w'
      → Records rs w' w''
      → Records (r ∷ rs) w w''
  unfolding last_of
  taken-Records r rs w w' w'' t (rows, pending) = (
    rows
        ∙ rw
            (
              t.rows,
              t.market,
              t.pending,
              closings_split w.ctx.pending_candle r rs,
              map-append (row_of w.ctx.market) (closings (front w.ctx.pending_candle (r ∷ [])))
                  (closings (front (some r.candle) rs)),
            )
            (append_assoc w.rows _ _),
    pending ∙ ap (λ c. last_of c rs) t.pending,
  )

  parsed-Records :
      (setup : Setup D) (x : Outside D) (q : Parsed D) (rs : List (WsCandleResult D))
      (f : Worker D → Worker D) (w : Worker D)
      → setup.has_db ≡ true
      → ((v : Worker D) → Records rs v (f v))
      → Records (with_candle q rs) w (f (take_parsed setup x q w).1)
  unfolding take_parsed with_candle
  parsed-Records setup x thrown rs f w db ih = ih w
  parsed-Records setup x dropped rs f w db ih = ih w
  parsed-Records setup x (parsed r) rs f w db ih =
      let w' = take_candle setup x r.candle r.unit_minutes w.ctx.pending_candle w in
      taken-Records r rs w w' (f w') (take_candle-Takes setup x r w.ctx.pending_candle w db refl)
        (ih w')

module _ {J D : Type 0} (json : Json J D) ⦃d : Double D⦄ where
  -- Whatever is pending at first, and whatever messages come, with a database the rows that a worker's
  -- candle handler writes are exactly the updates that are followed by one with another time stamp, the
  -- pending candle counting as the first of them, in their order and each with the unit of the update
  -- that follows; the last update is pending afterwards.
  pub writes_closed :
      (setup : Setup D) (texts : List (Outside D × String)) (w : Worker D)
      → setup.has_db ≡ true
      → Records
          (updates json setup.live_candle_unit_minutes texts)
          w
          (handle_all json setup texts w)
  unfolding handle_all updates handle_market_data last_of
  writes_closed setup [] w db = (sym (none_closed w.ctx.market w.ctx.pending_candle w.rows), refl)
  writes_closed setup ((x, text) ∷ texts) w db =
      parsed-Records setup x (parse_candle json setup.live_candle_unit_minutes text)
        (updates json setup.live_candle_unit_minutes texts) (handle_all json setup texts) w db
        (λ v. writes_closed setup texts v db)
