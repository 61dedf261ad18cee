-- ===== src/Engine/Defined.antt =====
-- `onOrderSnapshot` and `reconcileFromSnapshot` on an engine that is usable.
use coin_bot.Base.{
  Bool, true, Option, none, some, ◌≡◌, sym, ◌∙◌, inl, inr, arith, Bool-cases, Option-cases, subst,
}
use coin_bot.Double.{Double, ◌⊕◌, ◌⊖◌, ◌⊘◌, ◌<?◌, lit, max}
use coin_bot.Domain.OrderTypes.{is_done}
use coin_bot.Domain.Order.{Order}
use coin_bot.Domain.Account.{AppConfig}
use coin_bot.Account.{finalize_fill_buy, finalize_fill_sell}
use coin_bot.Account.Token.{ReservationToken}
use coin_bot.Account.Registered.{finalize_fill_buy-registered, finalize_fill_sell-registered}
use coin_bot.OrderStore.{get, update, erase}
use coin_bot.OrderStore.Laws.{IsKeyed, ops-IsKeyed}
use coin_bot.Engine.{World, set_accounts}
use coin_bot.Engine.Snapshot.{on_order_snapshot, is_foreign, merge}
use coin_bot.Engine.Reconcile.{
  reconcile_from_snapshot, book, then_apply, settle_delta, settle_delta_buy, Delta, delta,
}
use coin_bot.Engine.Ending.{snapshot_defined}
use coin_bot.Engine.Sync.{Has, ended, brought_up, foreign_snapshot, unknown_snapshot, stored_id}
use coin_bot.Engine.Usable.{IsUsable}

module _ {D : Type 0} ⦃d : Double D⦄ where
  -- The behaviour is defined, and leaves the engine usable.
  abbrev pub Works : Option (World D) → Type 0
  Works none = ⊥
  Works (some w) = IsUsable w

  abbrev pub WorksTold : Option (Bool × World D) → Type 0
  WorksTold none = ⊥
  WorksTold (some (told, w)) = IsUsable w

  on_order_snapshot-IsKeyed :
      (cfg : AppConfig D) (snapshot : Order D) (w w' : World D)
      → IsKeyed w.store
      → on_order_snapshot cfg snapshot w ≡ some w'
      → IsKeyed w'.store
  on_order_snapshot-IsKeyed cfg snapshot w w' keyed e = elim (Bool-cases (is_foreign snapshot w)) [
    | inl foreign ↦
        let kept = foreign_snapshot cfg snapshot w foreign in
        let same : w ≡ w' = cc in subst (λ x. IsKeyed x.store) same keyed
    | inr here ↦ elim (Option-cases (get snapshot.id w.store)) [
      | inl missing ↦
          let kept = unknown_snapshot cfg snapshot w missing in
          let same : w ≡ w' = cc in subst (λ x. IsKeyed x.store) same keyed
      | inr (old, q) ↦
          let id = stored_id snapshot.id w.store old keyed q in
          let st = (update (merge old snapshot) w.store).1 in
          let (_, k, _, _) = ops-IsKeyed w.store (merge old snapshot) snapshot.id keyed in
          elim (Bool-cases (is_done snapshot.status)) [
            | inl done ↦
                let (stored, _) =
                  subst (Has (erase snapshot.id st).1 w.engine.market) e
                    (ended cfg snapshot old w here q id done) in
                let (_, _, k', _) = ops-IsKeyed st snapshot snapshot.id k in
                subst IsKeyed (sym stored) k'
            | inr going ↦
                let written = brought_up cfg snapshot old w here q id going in
                let same : record w { store = st } ≡ w' = cc in subst (λ x. IsKeyed x.store) same k
          ]
    ]
  ]

  pub on_order_snapshot-Works :
      (cfg : AppConfig D) (snapshot : Order D) (w : World D)
      → IsUsable w
      → Works (on_order_snapshot cfg snapshot w)
  on_order_snapshot-Works cfg snapshot w h =
      let (w', e, known, _) = snapshot_defined cfg snapshot w h.known h.keyed in
      subst Works (sym e)
        (record { known = known; keyed = on_order_snapshot-IsKeyed cfg snapshot w w' h.keyed e })

  -- What `settle_delta` leaves, if it can tell the amount.
  abbrev Left : Option (World D) → Type 0
  Left none = Unit
  Left (some w) = IsUsable w

  settle_delta_buy-Left :
      (o : Order D) (x : Delta D) (t : Option (ReservationToken D)) (w : World D)
      → IsUsable w
      → Left (settle_delta_buy o x t w)
  unfolding settle_delta_buy
  settle_delta_buy-Left o x none w h = tt
  settle_delta_buy-Left o x (some t) w h =
      let r = finalize_fill_buy w.accounts t (x.funds ⊕ x.paid_fee) x.volume (x.funds ⊘ x.volume) in
      let h' : IsUsable (record w {
        engine = record (w.engine) { active_buy_token = some (r.0) };
        accounts = r.1;
      }) =
        record {
          known = finalize_fill_buy-registered w.accounts t _ _ _ w.engine.market ∙ h.known;
          keyed = h.keyed;
        } in
      ground (arith, h')

  settle_delta-Left :
      (o : Order D) (x : Delta D) (w : World D) → IsUsable w → Left (settle_delta o x w)
  unfolding settle_delta
  settle_delta-Left o x w h =
      let m =
        finalize_fill_sell w.accounts w.engine.market x.volume
          (max (lit 0) (x.funds ⊖ x.paid_fee)) in
      let h' : IsUsable (set_accounts w m) = record {
        known =
            finalize_fill_sell-registered w.accounts w.engine.market _ _ w.engine.market ∙ h.known;
        keyed = h.keyed;
      } in
      ground (arith, h', settle_delta_buy-Left o x w.engine.active_buy_token w h)

  then_apply-WorksTold :
      (cfg : AppConfig D) (o : Order D) (w : World D) (r : Option (World D))
      → IsUsable w
      → Left r
      → WorksTold (then_apply cfg o w r)
  unfolding then_apply
  then_apply-WorksTold cfg o w none h l = h
  then_apply-WorksTold cfg o w (some w') h l =
      go (on_order_snapshot cfg o w') (on_order_snapshot-Works cfg o w' l)
    where
      go :
          (r : Option (World D))
          → Works r
          → WorksTold (elim r [ none ↦ none | some w'' ↦ some (true, w'') ])
      go none l = elim l [ ]
      go (some w'') l = l

  book-WorksTold :
      (cfg : AppConfig D) (o : Order D) (prev : Option (Order D)) (w : World D)
      → IsUsable w
      → WorksTold (book cfg o prev w)
  unfolding book
  book-WorksTold cfg o none w h = h
  book-WorksTold cfg o (some prev) w h = elim (Bool-cases (lit 0 <? (delta o prev).volume)) [
    | inl e ↦ rw e (then_apply-WorksTold cfg o w _ h (settle_delta-Left o (delta o prev) w h))
    | inr e ↦ rw e (then_apply-WorksTold cfg o w (some w) h h)
  ]

  pub reconcile_from_snapshot-WorksTold :
      (cfg : AppConfig D) (o : Order D) (w : World D)
      → IsUsable w
      → WorksTold (reconcile_from_snapshot cfg o w)
  unfolding reconcile_from_snapshot
  reconcile_from_snapshot-WorksTold cfg o w h = elim (Bool-cases (is_foreign o w)) [
    | inl e ↦ rw e h
    | inr e ↦ rw e (book-WorksTold cfg o (get o.id w.store) w h)
  ]
