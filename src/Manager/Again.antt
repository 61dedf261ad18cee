-- ===== src/Manager/Again.antt =====
-- `handleMyOrder_` on a message that is delivered again, as after a reconnection.
use coin_bot.Base.{
  String, Bool, true, false, not, ◌&&◌, Option, none, some, List, [], ◌∷◌, ◌≡◌, ◌≢◌, refl, ap, sym,
  ◌∙◌, inl, inr, arith, Bool-cases, Option-cases, if◌then◌else◌, subst,
}
use coin_bot.Double.{Double}
use coin_bot.Double.Exact.{IsExact}
use coin_bot.Domain.Account.{AppConfig}
use coin_bot.Domain.OrderTypes.{is_done}
use coin_bot.Domain.Order.{Order, MyTrade}
use coin_bot.Json.{Json, ◌>>=◌}
use coin_bot.OrderStore.{get, update}
use coin_bot.OrderStore.Laws.{IsKeyed}
use coin_bot.Engine.{World, on_my_trade}
use coin_bot.Engine.Snapshot.{on_order_snapshot, is_foreign, merge}
use coin_bot.Engine.Reconcile.{reconcile_from_snapshot, book, then_apply}
use coin_bot.Engine.Once.{IsDeduped, later_trade, on_my_trade-store}
use coin_bot.Engine.Sync.{snapshot_again, foreign_snapshot, unknown_snapshot, brought_up, stored_id}
use coin_bot.Engine.Replay.{reconcile_again}
use coin_bot.Upbit.MyOrder.{MyOrderEvent, order_event, trade_event}
use coin_bot.Upbit.Told.{IsMessage, silent, lone, pair, parse_my_order-IsMessage}
use coin_bot.Upbit.Messages.{parse_my_order}
use coin_bot.Manager.{Setup, Worker, insert_order, set_world}
use coin_bot.Manager.Orders.{
  apply_event, apply_events, handle_my_order, take_reconciled, take_snapshot, mark_recovery,
  has_trade,
}

module _ {D : Type 0} where
  bind_some : (r : Option (World D)) → r >>= some ≡ r
  bind_some none = refl
  bind_some (some x) = refl

module _ {D : Type 0} ⦃d : Double D⦄ where
  -- A snapshot that does not end an order leaves the engine as it is.
  going_keeps :
      (cfg : AppConfig D) (o : Order D) (w w' : World D)
      → IsKeyed w.store
      → is_done o.status ≡ false
      → on_order_snapshot cfg o w ≡ some w'
      → w'.engine ≡ w.engine
  going_keeps cfg o w w' keyed going e = elim (Bool-cases (is_foreign o w)) [
    | inl foreign ↦
        let kept = foreign_snapshot cfg o w foreign in
        let same : w' ≡ w = cc in ap (λ x. x.engine) same
    | inr here ↦ elim (Option-cases (get o.id w.store)) [
      | inl missing ↦
          let kept = unknown_snapshot cfg o w missing in
          let same : w' ≡ w = cc in ap (λ x. x.engine) same
      | inr (old, q) ↦
          let written = brought_up cfg o old w here q (stored_id o.id w.store old keyed q) going in
          let same : w' ≡ record w { store = (update (merge old o) w.store).1 } = cc in
          ap (λ x. x.engine) same
    ]
  ]

  -- The world of a worker, if there is one.
  abbrev world_of : Option (Worker D) → Option (World D)
  world_of none = none
  world_of (some w) = some w.world

  insert_order-world :
      (setup : Setup D) (told : Bool) (o : Order D) (w : Worker D)
      → (insert_order setup told o w).world ≡ w.world
  unfolding insert_order
  insert_order-world setup false o w = refl
  insert_order-world setup true o w = ground arith

  take_snapshot-world :
      (setup : Setup D) (o : Order D) (r : Option (World D)) (w : Worker D)
      → world_of (take_snapshot setup o r w) ≡ r
  unfolding take_snapshot
  take_snapshot-world setup o none w = refl
  take_snapshot-world setup o (some x) w =
      ap some (insert_order-world setup (is_done o.status) o (set_world w x))

  abbrev world_told : Option (Bool × World D) → Option (World D)
  world_told none = none
  world_told (some (told, x)) = some x

  take_reconciled-world :
      (setup : Setup D) (o : Order D) (r : Option (Bool × World D)) (w : Worker D)
      → world_of (take_reconciled setup o r w) ≡ world_told r
  unfolding take_reconciled
  take_reconciled-world setup o none w = refl
  take_reconciled-world setup o (some (true, x)) w =
      ap some (insert_order-world setup true o (set_world w x))
  take_reconciled-world setup o (some (false, x)) w =
      ap some (insert_order-world setup false o (mark_recovery false (set_world w x)))

  -- What an event does to the world, apart from the rest of the worker.
  abbrev step :
      AppConfig D → (MyTrade D → String) → Bool → MyOrderEvent D → World D → Option (World D)
  step cfg print traded (trade_event t) x = some (on_my_trade cfg print t x)
  step cfg print traded (order_event o) x =
      if not traded && is_done o.status
      then world_told (reconcile_from_snapshot cfg o x)
      else on_order_snapshot cfg o x

  abbrev steps :
      AppConfig D → (MyTrade D → String) → Bool → List (MyOrderEvent D) → World D → Option (World D)
  steps cfg print traded [] x = some x
  steps cfg print traded (ev ∷ evs) x = step cfg print traded ev x >>= steps cfg print traded evs

  apply_event-world :
      (setup : Setup D) (traded : Bool) (ev : MyOrderEvent D) (w : Worker D)
      → world_of (apply_event setup traded ev w) ≡ step setup.app setup.print traded ev w.world
  unfolding apply_event
  apply_event-world setup traded (trade_event t) w = refl
  apply_event-world setup traded (order_event o) w =
      elim (Bool-cases (not traded && is_done o.status)) [
        | inl e ↦
            rw e (take_reconciled-world setup o (reconcile_from_snapshot setup.app o w.world) w)
        | inr e ↦ rw e (take_snapshot-world setup o (on_order_snapshot setup.app o w.world) w)
      ]

  apply_events-world :
      (setup : Setup D) (traded : Bool) (evs : List (MyOrderEvent D)) (w : Worker D)
      → world_of (apply_events setup traded evs w) ≡ steps setup.app setup.print traded evs w.world
  unfolding apply_events
  apply_events-world setup traded [] w = refl
  apply_events-world setup traded (ev ∷ evs) w =
      go (apply_event setup traded ev w) (apply_events-world setup traded evs)
      ∙ ap (λ r. r >>= steps setup.app setup.print traded evs) (apply_event-world setup traded ev w)
    where
      go :
          (r : Option (Worker D))
          → ((v : Worker D)
              → world_of (apply_events setup traded evs v)
                ≡ steps setup.app setup.print traded evs v.world)
          → world_of (r >>= apply_events setup traded evs)
            ≡ world_of r >>= steps setup.app setup.print traded evs
      go none ih = refl
      go (some w') ih = ih w'

  -- A reconciliation that fails leaves the world as it is.
  abbrev Unchanged : World D → Option (Bool × World D) → Type 0
  Unchanged w none = Unit
  Unchanged w (some (true, x)) = Unit
  Unchanged w (some (false, x)) = x ≡ w

  then_apply-Unchanged :
      (cfg : AppConfig D) (o : Order D) (w : World D) (r : Option (World D))
      → Unchanged w (then_apply cfg o w r)
  unfolding then_apply
  then_apply-Unchanged cfg o w none = refl
  then_apply-Unchanged cfg o w (some x) = go (on_order_snapshot cfg o x)
    where
      go : (r : Option (World D)) → Unchanged w (elim r [ none ↦ none | some y ↦ some (true, y) ])
      go none = tt
      go (some y) = tt

  book-Unchanged :
      (cfg : AppConfig D) (o : Order D) (prev : Option (Order D)) (w : World D)
      → Unchanged w (book cfg o prev w)
  unfolding book
  book-Unchanged cfg o none w = refl
  book-Unchanged cfg o (some prev) w = then_apply-Unchanged cfg o w _

  reconcile_from_snapshot-Unchanged :
      (cfg : AppConfig D) (o : Order D) (w : World D)
      → Unchanged w (reconcile_from_snapshot cfg o w)
  unfolding reconcile_from_snapshot
  reconcile_from_snapshot-Unchanged cfg o w = elim (Bool-cases (is_foreign o w)) [
    | inl e ↦ rw e refl
    | inr e ↦ rw e (book-Unchanged cfg o (get o.id w.store) w)
  ]

module _ {D : Type 0} ⦃d : Double D⦄ ⦃exact_D : IsExact D⦄ where
  reconciled_again :
      (cfg : AppConfig D) (o : Order D) (w w' : World D)
      → IsKeyed w.store
      → world_told (reconcile_from_snapshot cfg o w) ≡ some w'
      → world_told (reconcile_from_snapshot cfg o w') ≡ some w'
  reconciled_again cfg o w w' keyed e =
      go (reconcile_from_snapshot cfg o w) refl (reconcile_from_snapshot-Unchanged cfg o w) e
    where
      go :
          (r : Option (Bool × World D))
          → reconcile_from_snapshot cfg o w ≡ r
          → Unchanged w r
          → world_told r ≡ some w'
          → world_told (reconcile_from_snapshot cfg o w') ≡ some w'
      go none q u f = cc
      go (some (true, x)) q u f =
          let same : x ≡ w' = cc in
          ap world_told (reconcile_again cfg o w w' keyed (q ∙ ap (λ y. some (true, y)) same))
      go (some (false, x)) q u f =
          let same : w' ≡ w = cc in
          subst (λ y. world_told (reconcile_from_snapshot cfg o y) ≡ some y) (sym same)
            (ap world_told q ∙ ap some u)

  snapshot_step_again :
      (cfg : AppConfig D) (print : MyTrade D → String) (traded : Bool) (o : Order D)
      (w w' : World D)
      → IsKeyed w.store
      → step cfg print traded (order_event o) w ≡ some w'
      → step cfg print traded (order_event o) w' ≡ some w'
  snapshot_step_again cfg print traded o w w' keyed e =
      elim (Bool-cases (not traded && is_done o.status)) [
        | inl f ↦ rw f (reconciled_again cfg o w w' keyed (rw f at e))
        | inr f ↦ rw f (snapshot_again cfg o w w' keyed (rw f at e))
      ]

  message_again :
      (cfg : AppConfig D) (print : MyTrade D → String) (evs : List (MyOrderEvent D))
      (w w' : World D)
      → IsMessage evs
      → cfg.engine.max_seen_trades ≢ 0
      → IsDeduped cfg w
      → IsKeyed w.store
      → steps cfg print (has_trade evs) evs w ≡ some w'
      → steps cfg print (has_trade evs) evs w' ≡ some w'
  unfolding has_trade
  message_again cfg print evs w w' silent pos dedupe keyed e = refl
  message_again cfg print evs w w' (lone o) pos dedupe keyed e =
      let once : step cfg print false (order_event o) w ≡ some w' = sym (bind_some _) ∙ e in
      bind_some _ ∙ snapshot_step_again cfg print false o w w' keyed once
  message_again cfg print evs w w' (pair t o _ _ _ going _ _ _) pos dedupe keyed e =
      let x = on_my_trade cfg print t w in
      let applied : on_order_snapshot cfg o x ≡ some w' = sym (bind_some _) ∙ e in
      let keyed' : IsKeyed x.store = subst IsKeyed (sym (on_my_trade-store cfg print t w)) keyed in
      let same =
        later_trade cfg print t w w' pos dedupe (going_keeps cfg o x w' keyed' going applied) in
      ap (λ y. on_order_snapshot cfg o y >>= (λ z. some z)) same
      ∙ bind_some _
      ∙ snapshot_again cfg o x w' keyed' applied

module _ {J D : Type 0} (json : Json J D) ⦃d : Double D⦄ ⦃exact_D : IsExact D⦄ where
  same_world :
      (r : Option (Worker D)) (x : World D)
      → world_of r ≡ some x
      → (w : Worker D) × (r ≡ some w) × (w.world ≡ x)
  same_world none x e = absurd cc
  same_world (some w) x e = (w, refl, cc)

  -- A message about an own order that is delivered again, after it was handled, is handled again with
  -- nothing new: the engine, the store and the accounts stay exactly as they are. Prices and amounts are
  -- exact here, the store files orders under their identifiers, and the window of trades, which is not
  -- of size 0, holds each once.
  pub redelivered :
      (setup : Setup D) (text : String) (w w' : Worker D)
      → setup.app.engine.max_seen_trades ≢ 0
      → IsDeduped setup.app w.world
      → IsKeyed w.world.store
      → handle_my_order json setup text w ≡ some w'
      → (w'' : Worker D) × (handle_my_order json setup text w' ≡ some w'') × (w''.world ≡ w'.world)
  unfolding handle_my_order
  redelivered setup text w w' pos dedupe keyed e =
      let evs = parse_my_order json setup.app text in
      let world = apply_events-world setup (has_trade evs) evs in
      same_world _ w'.world (
        world w'
        ∙ message_again setup.app setup.print evs w.world w'.world
            (parse_my_order-IsMessage json setup.app text) pos dedupe keyed
            (sym (world w) ∙ ap world_of e))
