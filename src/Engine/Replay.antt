-- ===== src/Engine/Replay.antt =====
-- `reconcileFromSnapshot` with the same snapshot twice.
use coin_bot.Base.{
  true, false, not, ◌&&◌, Option, none, some, ◌≡◌, refl, sym, ap, ◌∙◌, subst, inl, inr, arith,
  Bool-cases, Option-cases, if◌then◌else◌, is_empty, str_eq,
}
use coin_bot.Double.{Double, ◌<?◌, lit}
use coin_bot.Double.Exact.{IsExact, sub_self_not_pos, lt_parts}
use coin_bot.Domain.OrderTypes.{is_done}
use coin_bot.Domain.Order.{Order}
use coin_bot.Domain.Account.{AppConfig}
use coin_bot.OrderStore.{get, update}
use coin_bot.OrderStore.Laws.{IsKeyed}
use coin_bot.Engine.{World}
use coin_bot.Engine.Snapshot.{on_order_snapshot, merge, is_foreign}
use coin_bot.Engine.Reconcile.{
  reconcile_from_snapshot, book, then_apply, settle_delta, settle_delta_buy, Delta, delta,
}
use coin_bot.Engine.Sync.{brought_up, brought_up_again, ended_again, stored_id}

module _ {D : Type 0} where
  -- The booking of a difference leaves the store and the market alone.
  abbrev Keeps : World D → Option (World D) → Type 0
  Keeps w none = Unit
  Keeps w (some w') = (w'.store ≡ w.store) × (w'.engine.market ≡ w.engine.market)

  -- What a reconciliation that returned true has done.
  record IsTold (w w' : World D) (apply : World D → Option (World D)) : Type 0 where
    booked : World D
    applied : apply booked ≡ some w'
    stored : booked.store ≡ w.store
    market : booked.engine.market ≡ w.engine.market

module _ {D : Type 0} ⦃d : Double D⦄ where
  settle_delta-Keeps : (o : Order D) (x : Delta D) (w : World D) → Keeps w (settle_delta o x w)
  unfolding settle_delta settle_delta_buy
  settle_delta-Keeps o x w = ground arith

  then_apply-IsTold :
      (cfg : AppConfig D) (o : Order D) (w w' : World D) (r : Option (World D))
      → Keeps w r
      → then_apply cfg o w r ≡ some (true, w')
      → IsTold w w' (on_order_snapshot cfg o)
  unfolding then_apply
  then_apply-IsTold cfg o w w' none k e = cc
  then_apply-IsTold cfg o w w' (some b) (st, mk) e =
      elim (Option-cases (on_order_snapshot cfg o b)) [
        | inl q ↦ absurd (ground arith)
        | inr (w'', q) ↦ record { booked = b; applied = ground arith; stored = st; market = mk }
      ]

  no_difference :
      (o prev : Order D) ⦃exact_D : IsExact D⦄
      → prev.executed_volume ≡ o.executed_volume
      → (lit 0 <? (delta o prev).volume) ≡ false
  unfolding delta
  no_difference o prev e = rw (e, sub_self_not_pos o.executed_volume) (none_is_positive)
    where
      none_is_positive : (lit 0 <? lit {D = D} 0) ≡ false
      none_is_positive = ground (arith, lt_parts (lit {D = D} 0) (lit 0))

  then_apply-some :
      (cfg : AppConfig D) (o : Order D) (w w' : World D)
      → on_order_snapshot cfg o w ≡ some w'
      → then_apply cfg o w (some w) ≡ some (true, w')
  unfolding then_apply
  then_apply-some cfg o w w' e = rw (then_apply, e) refl

  abbrev booked_with : Order D → Order D → World D → Option (World D)
  booked_with o prev w =
      if lit 0 <? (delta o prev).volume then settle_delta o (delta o prev) w else some w

  booked_with-Keeps : (o prev : Order D) (w : World D) → Keeps w (booked_with o prev w)
  booked_with-Keeps o prev w = elim (Bool-cases (lit 0 <? (delta o prev).volume)) [
    | inl e ↦ rw e (settle_delta-Keeps o (delta o prev) w)
    | inr e ↦ rw e (refl, refl)
  ]

  -- The second time, the order is gone or the sums are those of the snapshot.
  replay :
      (cfg : AppConfig D) (o prev : Order D) (w' : World D)
      → is_foreign o w' ≡ false
      → get o.id w'.store ≡ some prev
      → (lit 0 <? (delta o prev).volume) ≡ false
      → on_order_snapshot cfg o w' ≡ some w'
      → reconcile_from_snapshot cfg o w' ≡ some (true, w')
  unfolding reconcile_from_snapshot book
  replay cfg o prev w' here q zero_volume again =
      rw (here, q, zero_volume) (then_apply-some cfg o w' w' again)

  replay_gone :
      (cfg : AppConfig D) (o : Order D) (w' : World D)
      → get o.id w'.store ≡ none
      → reconcile_from_snapshot cfg o w' ≡ some (false, w')
  unfolding reconcile_from_snapshot book
  replay_gone cfg o w' q = elim (Bool-cases (is_foreign o w')) [
    | inl e ↦ rw e refl
    | inr e ↦ rw (e, q) refl
  ]

  told :
      (cfg : AppConfig D) (o : Order D) (w w' : World D)
      → reconcile_from_snapshot cfg o w ≡ some (true, w')
      → (is_foreign o w ≡ false)
        × (prev : Order D) × (get o.id w.store ≡ some prev)
        × IsTold w w' (on_order_snapshot cfg o)
  unfolding reconcile_from_snapshot book
  told cfg o w w' e = elim (Bool-cases (is_foreign o w)) [
    | inl f ↦ absurd (ground arith)
    | inr f ↦ elim (Option-cases (get o.id w.store)) [
      | inl q ↦ absurd (ground arith)
      | inr (prev, q) ↦
          let path : reconcile_from_snapshot cfg o w ≡ then_apply cfg o w (booked_with o prev w) =
            rw (f, q) refl in
          (
            f,
            prev,
            q,
            then_apply-IsTold cfg o w w' (booked_with o prev w) (booked_with-Keeps o prev w)
                (sym path ∙ e),
          )
    ]
  ]

module _ {D : Type 0} ⦃d : Double D⦄ ⦃exact_D : IsExact D⦄ where
  -- After a reconciliation that succeeded, another one with the same snapshot changes nothing: no
  -- KRW or coin is booked again. It reports true while the order goes on, and false once the
  -- snapshot has ended it.
  pub reconcile_again :
      (cfg : AppConfig D) (o : Order D) (w w' : World D)
      → IsKeyed w.store
      → reconcile_from_snapshot cfg o w ≡ some (true, w')
      → reconcile_from_snapshot cfg o w' ≡ some (not (is_done o.status), w')
  unfolding merge
  reconcile_again cfg o w w' keyed e =
      let (here, prev, q, t) = told cfg o w w' e in
      let b = t.booked in
      let keyed_b : IsKeyed b.store = subst IsKeyed (sym t.stored) keyed in
      let here_b : is_foreign o b ≡ false =
        ap (λ m. not (is_empty o.market) && not (str_eq o.market m)) t.market ∙ here in
      let q_b : get o.id b.store ≡ some prev = ap (get o.id) t.stored ∙ q in
      let id = stored_id o.id b.store prev keyed_b q_b in
      elim (Bool-cases (is_done o.status)) [
        | inl done ↦ rw done (
            replay_gone cfg o w' (ended_again cfg o prev b w' here_b keyed_b q_b id done t.applied))
        | inr going ↦
            let x = record b { store = (update (merge prev o) b.store).1 } in
            let (found, again) = brought_up_again cfg o prev b here_b q_b id going in
            let second =
              replay cfg o (merge prev o) x here_b found (no_difference o (merge prev o) refl)
                again in
            let first = brought_up cfg o prev b here_b q_b id going in
            let applied = t.applied in
            let same : x ≡ w' = cc in
            rw going (subst (λ y. reconcile_from_snapshot cfg o y ≡ some (true, y)) same second)
      ]
