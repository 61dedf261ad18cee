-- ===== src/Engine/Ending.antt =====
-- `onOrderSnapshot` on every branch: the budget that it reads, and the order in the store.
use coin_bot.Base.{
  String, Bool, true, false, not, ◌&&◌, ◌||◌, Option, none, some, ◌≡◌, refl, sym, ap, ◌∙◌, inl, inr,
  arith, Bool-cases, Option-cases, is_some,
}
use coin_bot.Base.Dict.{lookup}
use coin_bot.Double.{Double}
use coin_bot.Domain.OrderTypes.{OrderStatus, is_done, PositionEffect}
use coin_bot.Domain.Order.{Order}
use coin_bot.Domain.Account.{AppConfig, AccountConfig}
use coin_bot.Account.{AccountManager, get_budget, finalize_order}
use coin_bot.Account.Token.{ReservationToken}
use coin_bot.Account.Registered.{finalize_order-registered, finalize_sell_order-registered}
use coin_bot.Account.Reserve.{destroy_inactive, finalize_order-inactive}
use coin_bot.OrderStore.{get, update}
use coin_bot.OrderStore.Laws.{IsKeyed}
use coin_bot.Engine.{World, push_event}
use coin_bot.Engine.Snapshot.{
  on_order_snapshot, apply_snapshot, finish, forget, report_status, push_status, settle_sell_end,
  settle_buy_end, finalize_buy_token, close_buy, merge, is_foreign, resolve_position_effect,
  effect_of, mark,
}
use coin_bot.Engine.Sync.{
  ended_again, stored_id, foreign_snapshot, unknown_snapshot, brought_up, brought_up_again,
}

module _ {D : Type 0} ⦃d : Double D⦄ where
  -- Whether the market of the engine has a budget.
  abbrev pub registered : World D → Bool
  registered w = is_some (lookup w.engine.market w.accounts.budgets)

  -- Whether a handler's behaviour is defined, and leaves the market with its budget.
  defined : Option (World D) → Bool
  defined none = false
  defined (some w) = registered w

  close_buy-registered :
      (cfg : AppConfig D) (o : Option (ReservationToken D)) (w : World D)
      → registered (close_buy cfg o w) ≡ registered w
  unfolding close_buy
  close_buy-registered cfg none w = refl
  close_buy-registered cfg (some t) w =
      ap (λ m. is_some (lookup w.engine.market m.budgets))
        (destroy_inactive (finalize_order cfg.account w.accounts t).1
          (finalize_order cfg.account w.accounts t).0
          (finalize_order-inactive cfg.account w.accounts t))
      ∙ finalize_order-registered cfg.account w.accounts t w.engine.market

  settle_buy_end-registered :
      (cfg : AppConfig D) (o : Order D) (w : World D)
      → registered (settle_buy_end cfg o w) ≡ registered w
  unfolding settle_buy_end finalize_buy_token
  settle_buy_end-registered cfg o w =
      ground (arith, close_buy-registered cfg w.engine.active_buy_token w)

  settle_sell_end-registered :
      (cfg : AppConfig D) (o : Order D) (w : World D)
      → registered (settle_sell_end cfg o w) ≡ registered w
  unfolding settle_sell_end
  settle_sell_end-registered cfg o w = ground (
    arith,
    finalize_sell_order-registered cfg.account w.accounts w.engine.market (mark w) w.engine.market,
  )

  effect_defined :
      (cfg : AccountConfig D) (m : AccountManager D) (k : String) (o : Order D)
      → is_some (lookup k m.budgets) ≡ true
      → is_some (resolve_position_effect cfg m k o) ≡ true
  unfolding resolve_position_effect effect_of get_budget
  effect_defined cfg m k o h = elim (Option-cases (lookup k m.budgets)) [
    | inl q ↦ ground arith
    | inr (b, q) ↦ ground arith
  ]

  push_defined :
      (identifier : String) (o : Order D) (e : Option PositionEffect) (w : World D)
      → is_some e ≡ true
      → registered w ≡ true
      → defined (push_status identifier o e w) ≡ true
  unfolding push_status push_event defined
  push_defined identifier o none w h r = h
  push_defined identifier o (some e) w h r = r

  report_status-defined :
      (cfg : AppConfig D) (i : Option String) (o : Order D) (w : World D)
      → registered w ≡ true
      → defined (report_status cfg i o w) ≡ true
  unfolding report_status defined
  report_status-defined cfg none o w h = h
  report_status-defined cfg (some identifier) o w h = ground (
    arith,
    push_defined identifier o (resolve_position_effect cfg.account w.accounts w.engine.market o) w
        (effect_defined cfg.account w.accounts w.engine.market o h) h,
  )

  defined-forget : (k : String) (r : Option (World D)) → defined (forget k r) ≡ defined r
  unfolding forget defined
  defined-forget k none = refl
  defined-forget k (some w) = refl

  finish-defined :
      (cfg : AppConfig D) (s : OrderStatus) (o : Order D) (w : World D)
      → registered w ≡ true
      → defined (finish cfg s o w) ≡ true
  unfolding finish defined
  finish-defined cfg s o w h =
      let w' = settle_buy_end cfg o w in
      defined-forget o.id _
      ∙ ground (
        arith,
        report_status-defined cfg o.identifier o (settle_sell_end cfg o w')
            (settle_sell_end-registered cfg o w' ∙ settle_buy_end-registered cfg o w ∙ h),
      )

  apply_defined :
      (cfg : AppConfig D) (snapshot : Order D) (o : Option (Order D)) (w : World D)
      → registered w ≡ true
      → defined (apply_snapshot cfg snapshot o w) ≡ true
  unfolding apply_snapshot defined
  apply_defined cfg snapshot none w h = h
  apply_defined cfg snapshot (some old) w h =
      let o = merge old snapshot in
      ground (arith, finish-defined cfg old.status o (record w { store = (update o w.store).1 }) h)

  on_order_snapshot-defined :
      (cfg : AppConfig D) (snapshot : Order D) (w : World D)
      → registered w ≡ true
      → defined (on_order_snapshot cfg snapshot w) ≡ true
  unfolding on_order_snapshot defined
  on_order_snapshot-defined cfg snapshot w h =
      ground (arith, apply_defined cfg snapshot (get snapshot.id w.store) w h)

  -- Whether the store holds the order of a snapshot that has been applied to `w`.
  abbrev pub stays : Order D → World D → Bool
  stays snapshot w =
      is_some (get snapshot.id w.store) && (is_foreign snapshot w || not (is_done snapshot.status))

  on_order_snapshot-stays :
      (cfg : AppConfig D) (snapshot : Order D) (w w' : World D)
      → IsKeyed w.store
      → on_order_snapshot cfg snapshot w ≡ some w'
      → is_some (get snapshot.id w'.store) ≡ stays snapshot w
  on_order_snapshot-stays cfg snapshot w w' keyed e = elim (Bool-cases (is_foreign snapshot w)) [
    | inl foreign ↦
        let kept = foreign_snapshot cfg snapshot w foreign in
        let same : w ≡ w' = cc in
        ap (λ x. is_some (get snapshot.id x.store)) (sym same) ∙ ground arith
    | inr here ↦ elim (Option-cases (get snapshot.id w.store)) [
      | inl missing ↦
          let kept = unknown_snapshot cfg snapshot w missing in
          let same : w ≡ w' = cc in
          ap (λ x. is_some (get snapshot.id x.store)) (sym same) ∙ ground arith
      | inr (old, q) ↦
          let id = stored_id snapshot.id w.store old keyed q in
          elim (Bool-cases (is_done snapshot.status)) [
            | inl done ↦
                let gone = ended_again cfg snapshot old w w' here keyed q id done e in ground arith
            | inr going ↦
                let written = brought_up cfg snapshot old w here q id going in
                let same : record w { store = (update (merge old snapshot) w.store).1 } ≡ w' = cc in
                let (held, _) = brought_up_again cfg snapshot old w here q id going in
                ap (λ x. is_some (get snapshot.id x.store)) (sym same)
                ∙ ap is_some held
                ∙ ground arith
          ]
    ]
  ]

  -- When the engine's market is registered and the store is keyed, a snapshot never runs into
  -- undefined behaviour: it leaves a world in which the market is still registered, and in which the
  -- order is in the store if it was there before and the snapshot did not end it, a snapshot of
  -- another market ending nothing.
  pub snapshot_defined :
      (cfg : AppConfig D) (snapshot : Order D) (w : World D)
      → registered w ≡ true
      → IsKeyed w.store
      → (w' : World D) × (on_order_snapshot cfg snapshot w ≡ some w')
        × (registered w' ≡ true)
        × (is_some (get snapshot.id w'.store) ≡ stays snapshot w)
  unfolding defined
  snapshot_defined cfg snapshot w h keyed = elim (Option-cases (on_order_snapshot cfg snapshot w)) [
    | inl q ↦ ground (arith, ap defined (sym q) ∙ on_order_snapshot-defined cfg snapshot w h)
    | inr (w', q) ↦ (
      w',
      q,
      ap defined (sym q) ∙ on_order_snapshot-defined cfg snapshot w h,
      on_order_snapshot-stays cfg snapshot w w' keyed q,
    )
  ]
