-- ===== src/Manager/Sound/Candles.antt =====
-- What a worker needs to go on, before and after `handleMarketData_`.
use coin_bot.Base.{
  ℕ, Bool, ◌&&◌, Option, none, some, refl, inl, inr, arith, Bool-cases, is_some, str_eq,
}
use coin_bot.Double.{Double}
use coin_bot.Domain.Order.{OrderRequest}
use coin_bot.Domain.Account.{Candle}
use coin_bot.Manager.Sound.{IsSound, moved-IsSound, with_rows-IsSound}
use coin_bot.Engine.{PostResult, submit, set_mark_price}
use coin_bot.Engine.Exclusive.{submit-IsExclusive}
use coin_bot.Engine.Usable.{submit-IsUsable}
use coin_bot.Strategy.State.{RsiMeanReversionStrategy}
use coin_bot.Strategy.Invariant.{
  IsCoherent, on_candle-IsCoherent, on_intrabar_candle-IsCoherent, on_submit_failed-IsCoherent,
}
use coin_bot.Upbit.Messages.{Parsed, thrown, dropped, parsed}
use coin_bot.Manager.{Setup, Outside, Worker, set_world, set_strategy}
use coin_bot.Manager.Candles.{
  send, note_failure, decide_moving, intrabar_check, close_candle, take_candle, take_parsed,
  set_pending,
}

module _ {D : Type 0} {fired : Bool} ⦃d : Double D⦄ where
  send-IsSound :
      (setup : Setup D) (post : OrderRequest D → PostResult) (o : Option (OrderRequest D))
      (w : Worker D)
      → IsSound fired w
      → IsSound fired (send setup post o w).1
  unfolding send
  send-IsSound setup post none w h = h
  send-IsSound setup post (some req) w h =
      let (result, x) = submit setup.app post req w.world in
      let u = submit-IsUsable setup.app post req w.world h.usable in
      let e = submit-IsExclusive setup.app post req w.world h.exclusive in
      elim (Bool-cases result.success) [
        | inl q ↦
            rw q (record { usable = u; exclusive = e; coherent = h.coherent; timer = h.timer })
        | inr q ↦ rw q (record {
          usable = u;
          exclusive = e;
          coherent = on_submit_failed-IsCoherent w.ctx.strategy h.coherent;
          timer = h.timer;
        })
      ]

  note_failure-IsSound :
      (b : Bool) (w : Worker D) → IsSound fired w → IsSound fired (note_failure (b, w))
  unfolding note_failure
  note_failure-IsSound b w h = elim (Bool-cases (b && is_some w.ctx.pending_candle)) [
    | inl e ↦ rw e (moved-IsSound w _ refl refl h.timer h)
    | inr e ↦ rw e h
  ]

  pub with_strategy-IsSound :
      (s : RsiMeanReversionStrategy D) (w : Worker D)
      → IsCoherent s
      → IsSound fired w
      → IsSound fired (set_strategy w s)
  with_strategy-IsSound s w c h = record {
    usable = h.usable;
    exclusive = h.exclusive;
    coherent = c;
    timer = h.timer;
  }

  marked-IsSound :
      (p : D) (w : Worker D)
      → IsSound fired w
      → IsSound fired (set_world w (set_mark_price p w.world))
  unfolding set_mark_price
  marked-IsSound p w h = record {
    usable = record { known = h.usable.known; keyed = h.usable.keyed };
    exclusive = record { one_side = h.exclusive.one_side; linked = h.exclusive.linked };
    coherent = h.coherent;
    timer = h.timer;
  }

  decide_moving-IsSound :
      (setup : Setup D) (x : Outside D) (close : D) (w : Worker D)
      → IsSound fired w
      → IsSound fired (decide_moving setup x close w)
  unfolding decide_moving
  decide_moving-IsSound setup x close w h = note_failure-IsSound _ _ (
      send-IsSound setup x.post_moving _ _ (
        with_strategy-IsSound _ w
          (on_intrabar_candle-IsCoherent setup.app x.uuid_moving close _ w.ctx.strategy h.coherent)
          h))

  intrabar_check-IsSound :
      (setup : Setup D) (x : Outside D) (close : D) (w : Worker D)
      → IsSound fired w
      → IsSound fired (intrabar_check setup x close w)
  unfolding intrabar_check
  intrabar_check-IsSound setup x close w h =
      let m = marked-IsSound close w h in ground (arith, m, decide_moving-IsSound setup x close _ m)

  close_candle-IsSound :
      (setup : Setup D) (x : Outside D) (c : Candle D) (unit : ℕ) (w : Worker D)
      → IsSound fired w
      → IsSound fired (close_candle setup x c unit w)
  unfolding close_candle
  close_candle-IsSound setup x c unit w h =
      let m = marked-IsSound c.close_price _ (with_rows-IsSound setup _ w h) in
      send-IsSound setup x.post_close _ _
        (with_strategy-IsSound _ _ (on_candle-IsCoherent setup.app x.uuid_close c _ _ m.coherent) m)

  take_candle-IsSound :
      (setup : Setup D) (x : Outside D) (c : Candle D) (unit : ℕ) (p : Option (Candle D))
      (w : Worker D)
      → IsSound fired w
      → IsSound fired (take_candle setup x c unit p w)
  unfolding take_candle
  take_candle-IsSound setup x c unit none w h =
      intrabar_check-IsSound setup x c.close_price (set_pending c w)
        (moved-IsSound w (set_pending c w) refl refl h.timer h)
  take_candle-IsSound setup x c unit (some candle) w h =
      let w' = set_pending c w in
      let h' : IsSound fired w' = moved-IsSound w w' refl refl h.timer h in
      elim (Bool-cases (str_eq candle.start_timestamp c.start_timestamp)) [
        | inl e ↦ rw e (intrabar_check-IsSound setup x c.close_price w' h')
        | inr e ↦ rw e (
            intrabar_check-IsSound setup x c.close_price _
              (close_candle-IsSound setup x candle unit w' h'))
      ]

  pub take_parsed-IsSound :
      (setup : Setup D) (x : Outside D) (p : Parsed D) (w : Worker D)
      → IsSound fired w
      → IsSound fired (take_parsed setup x p w).1
  unfolding take_parsed
  take_parsed-IsSound setup x thrown w h = h
  take_parsed-IsSound setup x dropped w h = h
  take_parsed-IsSound setup x (parsed r) w h =
      take_candle-IsSound setup x r.candle r.unit_minutes w.ctx.pending_candle w h
