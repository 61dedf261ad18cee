-- ===== src/Engine/Rollback.antt =====
-- `submit` on every branch: what it returns, and what it leaves.
use coin_bot.Base.{
  String, Bool, true, false, not, Option, none, some, ◌≡◌, refl, sym, subst, ◌⊎◌, inl, inr, arith,
  Bool-cases, Option-cases, if◌then◌else◌, is_empty, is_some, str_eq,
}
use coin_bot.Base.Dict.{lookup}
use coin_bot.Double.{Double}
use coin_bot.Double.Exact.{IsExact, IsNonneg}
use coin_bot.Domain.OrderTypes.{is_bid}
use coin_bot.Domain.Order.{OrderRequest}
use coin_bot.Domain.Account.{AppConfig}
use coin_bot.Account.{MarketBudget, reserve}
use coin_bot.Account.Token.{ReservationToken}
use coin_bot.Account.Refund.{reserve_refused, release_dies}
use coin_bot.Engine.{
  World, PostResult, posted, post_failed, submit, submit_buy, submit_sell, reserve_and_send,
  send_buy, send_sell, store_order, release_buy, succeed, fail, set_engine, set_accounts,
}
use coin_bot.Engine.Events.{EngineErrorCode, EngineResult}
use mathlib.Core.Path.{ap₂}
use coin_bot.Engine.Request.{compute_reserve_amount, validate_request}
use coin_bot.Engine.Exclusive.{IsExclusive}
use coin_bot.Engine.Usable.{PostResult-cases}

empty_text : (s : String) → is_empty s ≡ true → s ≡ ""
empty_text String.[] h = refl
empty_text (String.◌∷◌ c s) h = absurd (ground arith)

module _ {D : Type 0} ⦃d : Double D⦄ where
  -- What a failed submission leaves as it was: all but the counters and the tokens' numbers.
  pub record IsUnchanged (w w' : World D) : Type 0 where
    pub engine : w'.engine ≡ w.engine
    pub store : w'.store ≡ w.store
    pub budgets : w'.accounts.budgets ≡ w.accounts.budgets

  -- A call that fails and leaves the rest as it was.
  abbrev pub RollsBack : World D → EngineResult D × World D → Type 0
  RollsBack w r = (r.0.success ≡ false) × IsUnchanged w r.1

  -- The exchange took the order, and the call says so.
  abbrev pub IsSent : PostResult → EngineResult D × World D → Type 0
  IsSent p r = (u : String) × (p ≡ posted u) × (r.0.success ≡ true)

  abbrev pub SendsOrRollsBack : PostResult → World D → EngineResult D × World D → Type 0
  SendsOrRollsBack p w r = IsSent p r ⊎ RollsBack w r

  fails_at_once : (code : EngineErrorCode) (w : World D) → RollsBack w (fail code, w)
  unfolding fail
  fails_at_once code w = (refl, record { engine = refl; store = refl; budgets = refl })

  unless-SendsOrRollsBack :
      (p : PostResult) (b : Bool) (code : EngineErrorCode) (w : World D)
      (r : EngineResult D × World D)
      → SendsOrRollsBack p w r
      → SendsOrRollsBack p w (if b then (fail code, w) else r)
  unless-SendsOrRollsBack p true code w r h = inr (fails_at_once code w)
  unless-SendsOrRollsBack p false code w r h = h

  busy :
      (cfg : AppConfig D) (post : OrderRequest D → PostResult) (r : OrderRequest D) (w : World D)
      (t : ReservationToken D)
      → w.engine.active_buy_token ≡ some t
      → submit_buy cfg post r w ≡ (fail EngineErrorCode.order_rejected, w)
  unfolding submit_buy
  busy cfg post r w t e = ground arith

  send_failed :
      (post : OrderRequest D → PostResult) (r : OrderRequest D) (t : ReservationToken D)
      (w : World D)
      → post r ≡ post_failed
      → send_buy post r t w ≡ (fail EngineErrorCode.internal_error, release_buy t w)
  unfolding send_buy
  send_failed post r t w e = rw (send_buy, e) refl

  stored-IsSent :
      (post : OrderRequest D → PostResult) (r : OrderRequest D) (w : World D) (u : String)
      → post r ≡ posted u
      → IsSent (post r) (store_order u r w)
  unfolding store_order succeed
  stored-IsSent post r w u e = (u, e, refl)

  sell-SendsOrRollsBack :
      (post : OrderRequest D → PostResult) (r : OrderRequest D) (w : World D)
      → SendsOrRollsBack (post r) w (submit_sell post r w)
  unfolding submit_sell
  sell-SendsOrRollsBack post r w =
      unless-SendsOrRollsBack (post r) (not (is_empty w.engine.active_sell_order_uuid))
        EngineErrorCode.order_rejected w _
        (unless-SendsOrRollsBack (post r) (is_some w.engine.active_buy_token)
          EngineErrorCode.order_rejected w _
          (elim (PostResult-cases (post r)) [
            | inl e ↦ inr (rw (send_sell, e) (fails_at_once EngineErrorCode.internal_error w))
            | inr (u, e) ↦
                let sent = set_engine w (record (w.engine) { active_sell_order_uuid = u }) in
                let goes : send_sell post r w ≡ store_order u r sent = rw (send_sell, e) refl in
                inl (subst (IsSent (post r)) (sym goes) (stored-IsSent post r sent u e))
          ]))

module _ {D : Type 0} ⦃d : Double D⦄ ⦃exact_D : IsExact D⦄ where
  reserved-SendsOrRollsBack :
      (cfg : AppConfig D) (post : OrderRequest D → PostResult) (r : OrderRequest D) (w : World D)
      (b : MarketBudget D) (o : Option (ReservationToken D))
      → w.engine.active_buy_token ≡ none
      → w.engine.active_buy_order_uuid ≡ ""
      → lookup w.engine.market w.accounts.budgets ≡ some b
      → IsNonneg b.reserved_krw
      → let a = compute_reserve_amount cfg.engine r in
        let m = (reserve w.accounts w.engine.market a).1 in
        (reserve w.accounts w.engine.market a).0 ≡ o
        → SendsOrRollsBack (post r) w (reserve_and_send post r o (set_accounts w m))
  unfolding reserve_and_send fail release_buy
  reserved-SendsOrRollsBack cfg post r w b none no_token no_uuid q f e = inr (
    refl,
    record {
      engine = refl;
      store = refl;
      budgets = reserve_refused w.accounts w.engine.market (compute_reserve_amount cfg.engine r) e;
    },
  )
  reserved-SendsOrRollsBack cfg post r w b (some t) no_token no_uuid q f e =
      let a = compute_reserve_amount cfg.engine r in
      let w' = set_accounts w (reserve w.accounts w.engine.market a).1 in
      let held = set_engine w' (record (w.engine) { active_buy_token = some t }) in
      elim (PostResult-cases (post r)) [
        | inr (u, taken) ↦
            let sent = set_engine held (record (held.engine) { active_buy_order_uuid = u }) in
            let goes : send_buy post r t held ≡ store_order u r sent = rw (send_buy, taken) refl in
            inl (subst (IsSent (post r)) (sym goes) (stored-IsSent post r sent u taken))
        | inl failed ↦ inr (
            subst (RollsBack w) (sym (send_failed post r t held failed)) (
              refl,
              record {
                engine =
                    ap₂
                      (λ o u. record (w.engine) { active_buy_token = o; active_buy_order_uuid = u })
                      (sym no_token) (sym no_uuid);
                store = refl;
                budgets = release_dies cfg.account w.accounts w.engine.market a b t q f e;
              },
            ))
      ]

  buy-SendsOrRollsBack :
      (cfg : AppConfig D) (post : OrderRequest D → PostResult) (r : OrderRequest D) (w : World D)
      (b : MarketBudget D)
      → IsExclusive w
      → lookup w.engine.market w.accounts.budgets ≡ some b
      → IsNonneg b.reserved_krw
      → SendsOrRollsBack (post r) w (submit_buy cfg post r w)
  unfolding submit_buy
  buy-SendsOrRollsBack cfg post r w b h q f = elim (Option-cases w.engine.active_buy_token) [
    | inr (t, e) ↦ inr (
        subst (RollsBack w) (sym (busy cfg post r w t e))
          (fails_at_once EngineErrorCode.order_rejected w))
    | inl idle ↦
        unless-SendsOrRollsBack (post r) (is_some w.engine.active_buy_token)
          EngineErrorCode.order_rejected w _
          (unless-SendsOrRollsBack (post r) (not (is_empty w.engine.active_sell_order_uuid))
            EngineErrorCode.order_rejected w _
            (reserved-SendsOrRollsBack cfg post r w b
              (reserve w.accounts w.engine.market (compute_reserve_amount cfg.engine r)).0 idle
              (empty_text w.engine.active_buy_order_uuid (ground (arith, h.linked))) q f refl))
  ]

  -- A submission either reaches the exchange, which takes the order, and says so; or it fails, for
  -- whatever reason before it is sent or since the exchange refuses it, says so, and leaves the engine,
  -- the store and every budget as they were, so that nothing stays reserved. The engine is exclusive, its
  -- market is registered with no negative reserve, and arithmetic is exact.
  pub submit-SendsOrRollsBack :
      (cfg : AppConfig D) (post : OrderRequest D → PostResult) (r : OrderRequest D) (w : World D)
      (b : MarketBudget D)
      → IsExclusive w
      → lookup w.engine.market w.accounts.budgets ≡ some b
      → IsNonneg b.reserved_krw
      → SendsOrRollsBack (post r) w (submit cfg post r w)
  unfolding submit
  submit-SendsOrRollsBack cfg post r w b h q f =
      unless-SendsOrRollsBack (post r) (not (validate_request r)) EngineErrorCode.order_rejected w _
        (unless-SendsOrRollsBack (post r) (not (str_eq r.market w.engine.market))
          EngineErrorCode.market_not_supported w _
          (elim (Bool-cases (is_bid r.position)) [
            | inl e ↦ rw e (buy-SendsOrRollsBack cfg post r w b h q f)
            | inr e ↦ rw e (sell-SendsOrRollsBack post r w)
          ]))
