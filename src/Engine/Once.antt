-- ===== src/Engine/Once.antt =====
-- `onMyTrade` on a trade that comes again.
use coin_bot.Base.{
  ◌≤◌, String, false, Option, ◌≡◌, ◌≢◌, refl, ap, ◌∙◌, inl, inr, arith, Bool-cases, if◌then◌else◌,
  str_eq, length,
}
use coin_bot.Double.{Double}
use coin_bot.Domain.Order.{MyTrade, Order}
use coin_bot.Domain.Account.{AppConfig}
use coin_bot.OrderStore.{get}
use coin_bot.Engine.{
  World, on_my_trade, take_trade, settle_trade, report_fill, push_event, set_engine,
}
use coin_bot.Engine.Dedupe.{mark_trade_once, make_trade_dedupe_key}
use coin_bot.Engine.Window.{IsWindow, mark-IsWindow, mark_again, mark_bounded}

module _ {D : Type 0} ⦃d : Double D⦄ where
  take_trade_keeps :
      (t : MyTrade D) (key : String) (o : Option (Order D)) (w : World D)
      → let w' = take_trade t key o w in
        (w'.engine.seen ≡ w.engine.seen) × (w'.engine.market ≡ w.engine.market)
  unfolding take_trade settle_trade report_fill push_event
  take_trade_keeps t key o w = ground arith

  -- The window of `max` uuids never holds more than that.
  unfoldable pub IsDeduped : AppConfig D → World D → Type 0
  IsDeduped cfg w =
      IsWindow w.engine.seen.uuids w.engine.seen.fifo
      × (length w.engine.seen.fifo ≤ cfg.engine.max_seen_trades)

  on_my_trade-seen :
      (cfg : AppConfig D) (print : MyTrade D → String) (t : MyTrade D) (w : World D)
      → let w' = on_my_trade cfg print t w in
        let s' =
          (mark_trade_once cfg.engine.max_seen_trades
            (make_trade_dedupe_key print t)
            w.engine.seen).1 in
        (w'.engine.market ≡ w.engine.market)
        × (w'.engine.seen ≡ (if str_eq t.market w.engine.market then s' else w.engine.seen))
  unfolding on_my_trade mark_trade_once
  on_my_trade-seen cfg print t w =
      let key = make_trade_dedupe_key print t in
      let s' = (mark_trade_once cfg.engine.max_seen_trades key w.engine.seen).1 in
      ground (
        arith,
        take_trade_keeps t key (get t.order_uuid w.store)
            (set_engine w (record (w.engine) { seen = s' })),
      )

  old_trade :
      (cfg : AppConfig D) (print : MyTrade D → String) (t : MyTrade D) (w : World D)
      → (mark_trade_once cfg.engine.max_seen_trades (make_trade_dedupe_key print t) w.engine.seen).0
        ≡ false
      → on_my_trade cfg print t w ≡ w
  unfolding on_my_trade
  old_trade cfg print t w h = ground arith

  foreign_trade :
      (cfg : AppConfig D) (print : MyTrade D → String) (t : MyTrade D) (w : World D)
      → str_eq t.market w.engine.market ≡ false
      → on_my_trade cfg print t w ≡ w
  unfolding on_my_trade
  foreign_trade cfg print t w h = ground arith

  -- A trade that is delivered again changes nothing: no KRW or coin is booked twice and no event is
  -- sent twice. The window goes on holding each uuid once, and no more of them than its size.
  pub trade_once :
      (cfg : AppConfig D) (print : MyTrade D → String) (t : MyTrade D) (w : World D)
      → cfg.engine.max_seen_trades ≢ 0
      → IsDeduped cfg w
      → let w' = on_my_trade cfg print t w in (on_my_trade cfg print t w' ≡ w') × IsDeduped cfg w'
  unfolding IsDeduped
  trade_once cfg print t w pos (h, bound) = elim (Bool-cases (str_eq t.market w.engine.market)) [
    | inr foreign ↦
        rw (foreign_trade cfg print t w foreign) (foreign_trade cfg print t w foreign, (h, bound))
    | inl mine ↦
        let w' = on_my_trade cfg print t w in
        let max = cfg.engine.max_seen_trades in
        let key = make_trade_dedupe_key print t in
        let seen : w'.engine.seen ≡ (mark_trade_once max key w.engine.seen).1 =
          (on_my_trade-seen cfg print t w).1 ∙ rw mine refl in
        (
          old_trade cfg print t w' (
              ap (λ s. (mark_trade_once max key s).0) seen
              ∙ ap (λ r. r.0) (mark_again max key w.engine.seen pos h)),
          rw seen (mark-IsWindow max key w.engine.seen h, mark_bounded max key w.engine.seen bound),
        )
  ]

  -- In any later world with the same market and the same window, too.
  pub later_trade :
      (cfg : AppConfig D) (print : MyTrade D → String) (t : MyTrade D) (w later : World D)
      → cfg.engine.max_seen_trades ≢ 0
      → IsDeduped cfg w
      → later.engine ≡ (on_my_trade cfg print t w).engine
      → on_my_trade cfg print t later ≡ later
  unfolding IsDeduped
  later_trade cfg print t w later pos (h, bound) e =
      let (market, seen) = on_my_trade-seen cfg print t w in
      let market' : later.engine.market ≡ w.engine.market = ap (λ x. x.market) e ∙ market in
      elim (Bool-cases (str_eq t.market w.engine.market)) [
        | inr foreign ↦ foreign_trade cfg print t later (ap (str_eq t.market) market' ∙ foreign)
        | inl mine ↦
            let max = cfg.engine.max_seen_trades in
            let key = make_trade_dedupe_key print t in
            old_trade cfg print t later (
              ap (λ x. (mark_trade_once max key x.seen).0) e
              ∙ ap (λ s. (mark_trade_once max key s).0) (seen ∙ rw mine refl)
              ∙ ap (λ r. r.0) (mark_again max key w.engine.seen pos h))
      ]

  pub on_my_trade-store :
      (cfg : AppConfig D) (print : MyTrade D → String) (t : MyTrade D) (w : World D)
      → (on_my_trade cfg print t w).store ≡ w.store
  unfolding on_my_trade take_trade settle_trade report_fill push_event
  on_my_trade-store cfg print t w = ground arith
