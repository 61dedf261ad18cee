-- ===== src/Engine/Usable.antt =====
-- What the engine's methods need of the store and of the accounts: `submit` and `onMyTrade`.
use coin_bot.Base.{
  String, true, Option, none, some, ◌⊎◌, ◌≡◌, refl, ap, ◌∙◌, inl, inr, arith, Option-cases, is_some,
  ◌++◌, [], ◌∷◌,
}
use coin_bot.Base.Dict.{lookup}
use coin_bot.Double.{Double, ◌⊕◌, ◌⊖◌, lit, max}
use coin_bot.Domain.Order.{Order, OrderRequest, MyTrade}
use coin_bot.Domain.Account.{AppConfig}
use coin_bot.Account.{reserve, release, finalize_fill_buy, finalize_fill_sell}
use coin_bot.Account.Token.{ReservationToken}
use coin_bot.Account.Registered.{
  reserve-registered, release-registered, destroy-registered, finalize_fill_buy-registered,
  finalize_fill_sell-registered,
}
use coin_bot.OrderStore.{get}
use coin_bot.OrderStore.Laws.{IsKeyed, ops-IsKeyed}
use coin_bot.Engine.{
  World, MarketEngine, PostResult, posted, post_failed, submit, submit_buy, submit_sell,
  reserve_and_send, send_buy, send_sell, store_order, release_buy, pending_order, set_engine,
  set_accounts, on_my_trade, take_trade, settle_trade, report_fill, push_event, fill_event,
}
use coin_bot.Engine.Request.{compute_reserve_amount}
use coin_bot.Engine.Dedupe.{mark_trade_once, make_trade_dedupe_key}
use coin_bot.Engine.Ending.{registered}

pub PostResult-cases : (p : PostResult) → (p ≡ post_failed) ⊎ ((u : String) × (p ≡ posted u))
PostResult-cases post_failed = inl refl
PostResult-cases (posted u) = inr (u, refl)

module _ {D : Type 0} ⦃d : Double D⦄ where
  pub record IsUsable (w : World D) : Type 0 where
    -- the market has a budget
    pub known : registered w ≡ true
    pub keyed : IsKeyed w.store

  store_order-IsUsable :
      (u : String) (r : OrderRequest D) (w : World D) → IsUsable w → IsUsable (store_order u r w).1
  unfolding store_order
  store_order-IsUsable u r w h = record {
    known = h.known;
    keyed = let (_, _, _, k) = ops-IsKeyed w.store (pending_order u r) u h.keyed in k;
  }

  release_buy-IsUsable :
      (t : ReservationToken D) (w : World D) → IsUsable w → IsUsable (release_buy t w)
  unfolding release_buy
  release_buy-IsUsable t w h = record {
    known =
        destroy-registered (release w.accounts t).1 (release w.accounts t).0 w.engine.market
        ∙ release-registered w.accounts t w.engine.market
        ∙ h.known;
    keyed = h.keyed;
  }

  -- A change of the engine that keeps its market.
  abbrev pub with_engine-IsUsable :
      (e : MarketEngine D) (w : World D)
      → e.market ≡ w.engine.market
      → IsUsable w
      → IsUsable (set_engine w e)
  with_engine-IsUsable e w p h = record {
    known = ap (λ k. is_some (lookup k w.accounts.budgets)) p ∙ h.known;
    keyed = h.keyed;
  }

  send_buy-IsUsable :
      (post : OrderRequest D → PostResult) (r : OrderRequest D) (t : ReservationToken D)
      (w : World D)
      → IsUsable w
      → IsUsable (send_buy post r t w).1
  unfolding send_buy
  send_buy-IsUsable post r t w h = elim (PostResult-cases (post r)) [
    | inl q ↦ rw (q, send_buy) (release_buy-IsUsable t w h)
    | inr (u, q) ↦
        rw (q, send_buy)
          (store_order-IsUsable u r _
            (with_engine-IsUsable (record (w.engine) { active_buy_order_uuid = u }) w refl h))
  ]

  reserve_and_send-IsUsable :
      (post : OrderRequest D → PostResult) (r : OrderRequest D) (t : Option (ReservationToken D))
      (w : World D)
      → IsUsable w
      → IsUsable (reserve_and_send post r t w).1
  unfolding reserve_and_send
  reserve_and_send-IsUsable post r none w h = h
  reserve_and_send-IsUsable post r (some t) w h =
      send_buy-IsUsable post r t _
        (with_engine-IsUsable (record (w.engine) { active_buy_token = some t }) w refl h)

  submit_buy-IsUsable :
      (cfg : AppConfig D) (post : OrderRequest D → PostResult) (r : OrderRequest D) (w : World D)
      → IsUsable w
      → IsUsable (submit_buy cfg post r w).1
  unfolding submit_buy
  submit_buy-IsUsable cfg post r w h =
      let a = compute_reserve_amount cfg.engine r in
      let (token, m) = reserve w.accounts w.engine.market a in
      ground (
        arith,
        reserve_and_send-IsUsable post r token (set_accounts w m) (record {
          known = reserve-registered w.accounts w.engine.market a w.engine.market ∙ h.known;
          keyed = h.keyed;
        }),
      )

  send_sell-IsUsable :
      (post : OrderRequest D → PostResult) (r : OrderRequest D) (w : World D)
      → IsUsable w
      → IsUsable (send_sell post r w).1
  unfolding send_sell
  send_sell-IsUsable post r w h = elim (PostResult-cases (post r)) [
    | inl q ↦ rw (q, send_sell) h
    | inr (u, q) ↦
        rw (q, send_sell)
          (store_order-IsUsable u r _
            (with_engine-IsUsable (record (w.engine) { active_sell_order_uuid = u }) w refl h))
  ]

  submit_sell-IsUsable :
      (post : OrderRequest D → PostResult) (r : OrderRequest D) (w : World D)
      → IsUsable w
      → IsUsable (submit_sell post r w).1
  unfolding submit_sell
  submit_sell-IsUsable post r w h = ground (arith, send_sell-IsUsable post r w h)

  pub submit-IsUsable :
      (cfg : AppConfig D) (post : OrderRequest D → PostResult) (r : OrderRequest D) (w : World D)
      → IsUsable w
      → IsUsable (submit cfg post r w).1
  unfolding submit
  submit-IsUsable cfg post r w h =
      ground (arith, submit_buy-IsUsable cfg post r w h, submit_sell-IsUsable post r w h)

  bought_trade-IsUsable :
      (t : MyTrade D) (token : ReservationToken D) (w : World D)
      → IsUsable w
      → let (token', m) =
          finalize_fill_buy w.accounts token (t.executed_funds ⊕ t.fee) t.volume t.price in
        IsUsable
          (record w { engine = record (w.engine) { active_buy_token = some token' }; accounts = m })
  bought_trade-IsUsable t token w h = record {
    known = finalize_fill_buy-registered w.accounts token _ _ _ w.engine.market ∙ h.known;
    keyed = h.keyed;
  }

  settle_trade-IsUsable : (t : MyTrade D) (w : World D) → IsUsable w → IsUsable (settle_trade t w)
  unfolding settle_trade
  settle_trade-IsUsable t w h =
      let sold : IsUsable (
          set_accounts w (
            finalize_fill_sell w.accounts w.engine.market t.volume
              (max (lit 0) (t.executed_funds ⊖ t.fee)))) =
        record {
          known =
              finalize_fill_sell-registered w.accounts w.engine.market _ _ w.engine.market
              ∙ h.known;
          keyed = h.keyed;
        } in
      elim (Option-cases w.engine.active_buy_token) [
        | inl q ↦ ground (arith, sold)
        | inr (token, q) ↦ ground (arith, sold, bought_trade-IsUsable t token w h)
      ]

  report_fill-IsUsable :
      (i : Option String) (t : MyTrade D) (key : String) (w : World D)
      → IsUsable w
      → IsUsable (report_fill i t key w)
  unfolding report_fill push_event
  report_fill-IsUsable none t key w h = h
  report_fill-IsUsable (some i) t key w h =
      let e = record (w.engine) { events = w.engine.events ++ (fill_event i t key ∷ []) } in
      ground (arith, with_engine-IsUsable e w refl h)

  take_trade-IsUsable :
      (t : MyTrade D) (key : String) (o : Option (Order D)) (w : World D)
      → IsUsable w
      → IsUsable (take_trade t key o w)
  unfolding take_trade
  take_trade-IsUsable t key none w h = h
  take_trade-IsUsable t key (some o) w h =
      settle_trade-IsUsable t _ (report_fill-IsUsable _ t key w h)

  pub on_my_trade-IsUsable :
      (cfg : AppConfig D) (print : MyTrade D → String) (t : MyTrade D) (w : World D)
      → IsUsable w
      → IsUsable (on_my_trade cfg print t w)
  unfolding on_my_trade
  on_my_trade-IsUsable cfg print t w h =
      let key = make_trade_dedupe_key print t in
      let (first, seen) = mark_trade_once cfg.engine.max_seen_trades key w.engine.seen in
      ground (
        arith,
        take_trade-IsUsable t key (get t.order_uuid w.store) _
            (with_engine-IsUsable (record (w.engine) { seen = seen }) w refl h),
      )
