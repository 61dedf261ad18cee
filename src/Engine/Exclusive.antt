-- ===== src/Engine/Exclusive.antt =====
-- The buy and the sell that an engine holds, before and after each of its methods.
use coin_bot.Base.{
  String, true, false, Option, none, some, ◌≡◌, arith, not, ◌&&◌, ◌||◌, inl, inr, Bool-cases,
  is_some, is_empty,
}
use coin_bot.Double.{Double}
use coin_bot.Domain.OrderTypes.{OrderStatus, PositionEffect, is_done, same_status}
use coin_bot.Domain.Order.{Order, OrderRequest, MyTrade}
use coin_bot.Domain.Account.{AppConfig}
use coin_bot.Account.Token.{ReservationToken}
use coin_bot.OrderStore.{update}
use coin_bot.Engine.{World, PostResult, submit, submit_buy, submit_sell, send_buy, on_my_trade}
use coin_bot.Engine.Snapshot.{
  on_order_snapshot, apply_snapshot, finish, forget, report_status, push_status, settle_sell_end,
  settle_buy_end, merge, is_foreign,
}

module _ {D : Type 0} where
  pub record IsExclusive (w : World D) : Type 0 where
    -- a buy token and a sell's uuid are never held together
    pub one_side :
        is_some w.engine.active_buy_token && not (is_empty w.engine.active_sell_order_uuid) ≡ false
    -- a buy's uuid is held only with its token
    pub linked : is_some w.engine.active_buy_token || is_empty w.engine.active_buy_order_uuid ≡ true

module _ {D : Type 0} ⦃d : Double D⦄ where
  send_buy-IsExclusive :
      (post : OrderRequest D → PostResult) (r : OrderRequest D) (t : ReservationToken D)
      (w : World D)
      → is_some w.engine.active_buy_token ≡ true
      → is_empty w.engine.active_sell_order_uuid ≡ true
      → IsExclusive (send_buy post r t w).1
  unfolding send_buy
  send_buy-IsExclusive post r t w h e = ground arith

  submit_buy-IsExclusive :
      (cfg : AppConfig D) (post : OrderRequest D → PostResult) (r : OrderRequest D) (w : World D)
      → IsExclusive w
      → IsExclusive (submit_buy cfg post r w).1
  unfolding submit_buy
  submit_buy-IsExclusive cfg post r w h = ground arith

  submit_sell-IsExclusive :
      (post : OrderRequest D → PostResult) (r : OrderRequest D) (w : World D)
      → IsExclusive w
      → IsExclusive (submit_sell post r w).1
  unfolding submit_sell
  submit_sell-IsExclusive post r w h = ground arith

  pub submit-IsExclusive :
      (cfg : AppConfig D) (post : OrderRequest D → PostResult) (r : OrderRequest D) (w : World D)
      → IsExclusive w
      → IsExclusive (submit cfg post r w).1
  unfolding submit
  submit-IsExclusive cfg post r w h =
      ground (arith, submit_buy-IsExclusive cfg post r w h, submit_sell-IsExclusive post r w h)

  pub on_my_trade-IsExclusive :
      (cfg : AppConfig D) (print : MyTrade D → String) (t : MyTrade D) (w : World D)
      → IsExclusive w
      → IsExclusive (on_my_trade cfg print t w)
  unfolding on_my_trade
  on_my_trade-IsExclusive cfg print t w h = ground arith

  -- What holds of the world that a handler leaves, if its behaviour is defined.
  abbrev pub Leaves : Option (World D) → Type 0
  Leaves none = Unit
  Leaves (some w) = IsExclusive w

  forget-Leaves : (k : String) (r : Option (World D)) → Leaves r → Leaves (forget k r)
  unfolding forget
  forget-Leaves k none h = tt
  forget-Leaves k (some w) h = record { one_side = h.one_side; linked = h.linked }

  push_status-Leaves :
      (i : String) (o : Order D) (e : Option PositionEffect) (w : World D)
      → IsExclusive w
      → Leaves (push_status i o e w)
  unfolding push_status
  push_status-Leaves i o none w h = tt
  push_status-Leaves i o (some e) w h = record { one_side = h.one_side; linked = h.linked }

  report_status-Leaves :
      (cfg : AppConfig D) (i : Option String) (o : Order D) (w : World D)
      → IsExclusive w
      → Leaves (report_status cfg i o w)
  unfolding report_status
  report_status-Leaves cfg none o w h = h
  report_status-Leaves cfg (some i) o w h = elim (Bool-cases (is_empty i)) [
    | inl e ↦ rw e h
    | inr e ↦ rw e (push_status-Leaves i o _ w h)
  ]

  settle_buy_end-IsExclusive :
      (cfg : AppConfig D) (o : Order D) (w : World D)
      → IsExclusive w
      → IsExclusive (settle_buy_end cfg o w)
  unfolding settle_buy_end
  settle_buy_end-IsExclusive cfg o w h = ground arith

  settle_sell_end-IsExclusive :
      (cfg : AppConfig D) (o : Order D) (w : World D)
      → IsExclusive w
      → IsExclusive (settle_sell_end cfg o w)
  unfolding settle_sell_end
  settle_sell_end-IsExclusive cfg o w h = ground arith

  finish-Leaves :
      (cfg : AppConfig D) (s : OrderStatus) (o : Order D) (w : World D)
      → IsExclusive w
      → Leaves (finish cfg s o w)
  unfolding finish
  finish-Leaves cfg s o w h = forget-Leaves o.id _ (elim (Bool-cases (same_status o.status s)) [
    | inl e ↦ rw e h
    | inr e ↦ rw e (
        report_status-Leaves cfg o.identifier o _
          (settle_sell_end-IsExclusive cfg o _ (settle_buy_end-IsExclusive cfg o w h)))
  ])

  apply_snapshot-Leaves :
      (cfg : AppConfig D) (snapshot : Order D) (old : Option (Order D)) (w : World D)
      → IsExclusive w
      → Leaves (apply_snapshot cfg snapshot old w)
  unfolding apply_snapshot
  apply_snapshot-Leaves cfg snapshot none w h = h
  apply_snapshot-Leaves cfg snapshot (some old) w h =
      let o = merge old snapshot in
      let (updated, store) = update o w.store in
      let w' = record w { store = store } in
      let h' : IsExclusive w' = record { one_side = h.one_side; linked = h.linked } in
      elim (Bool-cases updated) [
        | inr e ↦ rw e h
        | inl e ↦ elim (Bool-cases (is_done o.status)) [
          | inl done ↦ rw (e, done) (finish-Leaves cfg old.status o w' h')
          | inr going ↦ rw (e, going) h'
        ]
      ]

  pub on_order_snapshot-Leaves :
      (cfg : AppConfig D) (snapshot : Order D) (w : World D)
      → IsExclusive w
      → Leaves (on_order_snapshot cfg snapshot w)
  unfolding on_order_snapshot
  on_order_snapshot-Leaves cfg snapshot w h = elim (Bool-cases (is_foreign snapshot w)) [
    | inl e ↦ rw e h
    | inr e ↦ rw e (apply_snapshot-Leaves cfg snapshot _ w h)
  ]
