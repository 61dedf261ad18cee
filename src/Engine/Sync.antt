-- ===== src/Engine/Sync.antt =====
-- `onOrderSnapshot` on a snapshot that comes again.
use coin_bot.Base.{
  String, true, false, Option, none, some, [], ◌∷◌, ◌≡◌, refl, sym, ap, ◌∙◌, subst, inl, inr, arith,
  Bool-cases, Option-cases, eq_iff,
}
use coin_bot.Base.Dict.{Dict, lookup, lookup-replace_self, lookup-remove_self, replace-replace}
use coin_bot.Double.{Double}
use coin_bot.Domain.OrderTypes.{OrderStatus, is_done, same_status}
use coin_bot.Domain.Order.{Order}
use coin_bot.Domain.Account.{AppConfig}
use coin_bot.OrderStore.{OrderStore, get, update, erase}
use coin_bot.OrderStore.Laws.{Keyed, IsKeyed, ops-IsKeyed}
use coin_bot.Engine.{World, push_event}
use coin_bot.Engine.Snapshot.{
  on_order_snapshot, apply_snapshot, finish, forget, report_status, push_status, settle_sell_end,
  settle_buy_end, finalize_buy_token, close_buy, merge, is_foreign,
}

module _ {D : Type 0} where
  Keyed-id :
      (k : String) (m : Dict (Order D)) (o : Order D) → Keyed m → lookup k m ≡ some o → o.id ≡ k
  unfolding lookup
  Keyed-id k [] o h e = cc
  Keyed-id k ((j, w) ∷ m) o (p, _, r) e = ground (arith, eq_iff j k, Keyed-id k m o r)

  pub stored_id :
      (k : String) (s : OrderStore D) (o : Order D) → IsKeyed s → get k s ≡ some o → o.id ≡ k
  unfolding get
  stored_id k s o h e = Keyed-id k s.orders o h.keyed e

  -- What holds of the store and the market of the world that a handler leaves.
  abbrev pub Has : OrderStore D → String → Option (World D) → Type 0
  Has st market none = Unit
  Has st market (some w) = (w.store ≡ st) × (w.engine.market ≡ market)

module _ {D : Type 0} ⦃d : Double D⦄ where
  settle_end_keeps :
      (cfg : AppConfig D) (o : Order D) (w : World D)
      → let w' = settle_sell_end cfg o (settle_buy_end cfg o w) in
        (w'.store ≡ w.store) × (w'.engine.market ≡ w.engine.market)
  unfolding settle_sell_end settle_buy_end finalize_buy_token close_buy
  settle_end_keeps cfg o w = ground arith

  report_status-Has :
      (cfg : AppConfig D) (i : Option String) (o : Order D) (w : World D)
      → Has w.store w.engine.market (report_status cfg i o w)
  unfolding report_status push_status push_event
  report_status-Has cfg i o w = ground arith

  forget-Has :
      (k : String) (st : OrderStore D) (market : String) (r : Option (World D))
      → Has st market r
      → Has (erase k st).1 market (forget k r)
  unfolding forget
  forget-Has k st market none h = tt
  forget-Has k st market (some w) (h, e) = (ap (λ s. (erase k s).1) h, e)

  finish-Has :
      (cfg : AppConfig D) (s : OrderStatus) (o : Order D) (w : World D)
      → Has (erase o.id w.store).1 w.engine.market (finish cfg s o w)
  unfolding finish
  finish-Has cfg s o w =
      forget-Has o.id w.store w.engine.market _ (elim (Bool-cases (same_status o.status s)) [
        | inl e ↦ rw e (refl, refl)
        | inr e ↦
            let w' = settle_sell_end cfg o (settle_buy_end cfg o w) in
            let (st, mk) = settle_end_keeps cfg o w in
            rw e (
              subst (λ x. Has x w.engine.market (report_status cfg o.identifier o w')) st
                (subst (λ x. Has w'.store x (report_status cfg o.identifier o w')) mk
                  (report_status-Has cfg o.identifier o w')))
      ])

  merge_again : (o s : Order D) → merge (merge o s) s ≡ merge o s
  unfolding merge
  merge_again o s = ground arith

  pub foreign_snapshot :
      (cfg : AppConfig D) (snapshot : Order D) (w : World D)
      → is_foreign snapshot w ≡ true
      → on_order_snapshot cfg snapshot w ≡ some w
  unfolding on_order_snapshot
  foreign_snapshot cfg snapshot w h = rw h refl

  pub unknown_snapshot :
      (cfg : AppConfig D) (snapshot : Order D) (w : World D)
      → get snapshot.id w.store ≡ none
      → on_order_snapshot cfg snapshot w ≡ some w
  unfolding on_order_snapshot apply_snapshot
  unknown_snapshot cfg snapshot w h = elim (Bool-cases (is_foreign snapshot w)) [
    | inl e ↦ rw e refl
    | inr e ↦ rw (e, h) refl
  ]

  -- A store in which the order stands as the snapshot has it.
  abbrev IsMerged : Order D → OrderStore D → Type 0
  IsMerged o s = (get o.id s ≡ some o) × (update o s ≡ (true, s))

  update-IsMerged :
      (o old : Order D) (s : OrderStore D)
      → get o.id s ≡ some old
      → ((update o s).0 ≡ true) × IsMerged o (update o s).1
  unfolding get update
  update-IsMerged o old s q = rw q (
    refl,
    (
      lookup-replace_self o.id o old s.orders q,
      rw (lookup-replace_self o.id o old s.orders q, replace-replace o.id o o s.orders) refl,
    ),
  )

  pub brought_up :
      (cfg : AppConfig D) (snapshot old : Order D) (w : World D)
      → is_foreign snapshot w ≡ false
      → get snapshot.id w.store ≡ some old
      → old.id ≡ snapshot.id
      → is_done snapshot.status ≡ false
      → on_order_snapshot cfg snapshot w
        ≡ some (record w { store = (update (merge old snapshot) w.store).1 })
  unfolding on_order_snapshot apply_snapshot merge
  brought_up cfg snapshot old w here q same going =
      let o = merge old snapshot in
      rw (here, q, (update-IsMerged o old w.store (ap (λ k. get k w.store) same ∙ q)).0, going) refl

  pub ended :
      (cfg : AppConfig D) (snapshot old : Order D) (w : World D)
      → is_foreign snapshot w ≡ false
      → get snapshot.id w.store ≡ some old
      → old.id ≡ snapshot.id
      → is_done snapshot.status ≡ true
      → Has
          (erase snapshot.id (update (merge old snapshot) w.store).1).1
          w.engine.market
          (on_order_snapshot cfg snapshot w)
  unfolding on_order_snapshot apply_snapshot
  ended cfg snapshot old w here q same done =
      let o = merge old snapshot in
      let st = (update o w.store).1 in
      rw (here, q, (update-IsMerged o old w.store (ap (λ k. get k w.store) same ∙ q)).0, done)
        (subst
          (λ k.
            Has (erase k st).1 w.engine.market (finish cfg old.status o (record w { store = st })))
          same (finish-Has cfg old.status o (record w { store = st })))

  pub brought_up_again :
      (cfg : AppConfig D) (snapshot old : Order D) (w : World D)
      → is_foreign snapshot w ≡ false
      → get snapshot.id w.store ≡ some old
      → old.id ≡ snapshot.id
      → is_done snapshot.status ≡ false
      → let w' = record w { store = (update (merge old snapshot) w.store).1 } in
        (get snapshot.id w'.store ≡ some (merge old snapshot))
        × (on_order_snapshot cfg snapshot w' ≡ some w')
  unfolding merge
  brought_up_again cfg snapshot old w here q same going =
      let o = merge old snapshot in
      let st = (update o w.store).1 in
      let (_, (found, again)) = update-IsMerged o old w.store (ap (λ k. get k w.store) same ∙ q) in
      let found' : get snapshot.id st ≡ some o = ap (λ k. get k st) (sym same) ∙ found in
      (
        found',
        brought_up cfg snapshot o (record w { store = st }) here found' same going
            ∙ ap (λ x. some (record w { store = (update x st).1 })) (merge_again old snapshot)
            ∙ ap (λ r. some (record w { store = r.1 })) again,
      )

  pub ended_again :
      (cfg : AppConfig D) (snapshot old : Order D) (w w' : World D)
      → is_foreign snapshot w ≡ false
      → IsKeyed w.store
      → get snapshot.id w.store ≡ some old
      → old.id ≡ snapshot.id
      → is_done snapshot.status ≡ true
      → on_order_snapshot cfg snapshot w ≡ some w'
      → get snapshot.id w'.store ≡ none
  unfolding get erase
  ended_again cfg snapshot old w w' here keyed q same done e =
      let o = merge old snapshot in
      let st = (update o w.store).1 in
      let (stored, _) =
        subst (Has (erase snapshot.id st).1 w.engine.market) e
          (ended cfg snapshot old w here q same done) in
      let keyed' : IsKeyed st = let (_, k, _, _) = ops-IsKeyed w.store o snapshot.id keyed in k in
      ap (lookup snapshot.id) (ap (λ s. s.orders) stored)
      ∙ ground (arith, lookup-remove_self snapshot.id st.orders keyed'.distinct)

  settled :
      (cfg : AppConfig D) (snapshot : Order D) (w x w' : World D)
      → on_order_snapshot cfg snapshot w ≡ some w'
      → on_order_snapshot cfg snapshot w ≡ some x
      → on_order_snapshot cfg snapshot x ≡ some x
      → on_order_snapshot cfg snapshot w' ≡ some w'
  settled cfg snapshot w x w' e f again =
      let same : x ≡ w' = cc in subst (λ y. on_order_snapshot cfg snapshot y ≡ some y) same again

  -- A snapshot that is applied again changes nothing: the order is not written differently, and no
  -- token is closed, no sale concluded and no event sent a second time.
  pub snapshot_again :
      (cfg : AppConfig D) (snapshot : Order D) (w w' : World D)
      → IsKeyed w.store
      → on_order_snapshot cfg snapshot w ≡ some w'
      → on_order_snapshot cfg snapshot w' ≡ some w'
  snapshot_again cfg snapshot w w' keyed e = elim (Bool-cases (is_foreign snapshot w)) [
    | inl foreign ↦
        let done = foreign_snapshot cfg snapshot w foreign in
        settled cfg snapshot w w w' e done done
    | inr here ↦ elim (Option-cases (get snapshot.id w.store)) [
      | inl missing ↦
          let done = unknown_snapshot cfg snapshot w missing in
          settled cfg snapshot w w w' e done done
      | inr (old, q) ↦
          let id = stored_id snapshot.id w.store old keyed q in
          elim (Bool-cases (is_done snapshot.status)) [
            | inl done ↦
                unknown_snapshot cfg snapshot w'
                  (ended_again cfg snapshot old w w' here keyed q id done e)
            | inr going ↦
                settled cfg snapshot w _ w' e (brought_up cfg snapshot old w here q id going)
                  (brought_up_again cfg snapshot old w here q id going).1
          ]
    ]
  ]
