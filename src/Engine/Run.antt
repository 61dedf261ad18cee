-- ===== src/Engine/Run.antt =====
-- The engine as a machine: its methods are the steps.
use coin_bot.Base.{
  String, Bool, true, Option, none, some, ◌≡◌, refl, arith, inl, inr, Bool-cases, subst,
}
use coin_bot.Double.{Double, ◌<?◌, lit}
use coin_bot.Domain.Order.{Order, OrderRequest, MyTrade}
use coin_bot.Domain.Account.{AppConfig}
use coin_bot.Account.Token.{ReservationToken}
use coin_bot.OrderStore.{get}
use coin_bot.Engine.{World, PostResult, submit, on_my_trade, poll_events, set_mark_price}
use coin_bot.Engine.Snapshot.{on_order_snapshot, is_foreign}
use coin_bot.Engine.Reconcile.{
  reconcile_from_snapshot, book, then_apply, settle_delta, settle_delta_buy, Delta, delta,
}
use coin_bot.Engine.Exclusive.{
  IsExclusive, Leaves, submit-IsExclusive, on_my_trade-IsExclusive, on_order_snapshot-Leaves,
}

module _ {D : Type 0} where
  -- What holds of the world that `reconcileFromSnapshot` leaves.
  abbrev pub LeavesTold : Option (Bool × World D) → Type 0
  LeavesTold none = Unit
  LeavesTold (some (told, w)) = IsExclusive w

module _ {D : Type 0} ⦃d : Double D⦄ where
  settle_delta_buy-Leaves :
      (o : Order D) (x : Delta D) (t : Option (ReservationToken D)) (w : World D)
      → w.engine.active_buy_token ≡ t
      → IsExclusive w
      → Leaves (settle_delta_buy o x t w)
  unfolding settle_delta_buy
  settle_delta_buy-Leaves o x none w e h = tt
  settle_delta_buy-Leaves o x (some t) w e h = ground arith

  settle_delta-Leaves :
      (o : Order D) (x : Delta D) (w : World D) → IsExclusive w → Leaves (settle_delta o x w)
  unfolding settle_delta
  settle_delta-Leaves o x w h =
      ground (arith, settle_delta_buy-Leaves o x w.engine.active_buy_token w refl h)

  then_apply-Leaves :
      (cfg : AppConfig D) (o : Order D) (w : World D) (r : Option (World D))
      → IsExclusive w
      → Leaves r
      → LeavesTold (then_apply cfg o w r)
  unfolding then_apply
  then_apply-Leaves cfg o w none h l = h
  then_apply-Leaves cfg o w (some w') h l =
      go (on_order_snapshot cfg o w') (on_order_snapshot-Leaves cfg o w' l)
    where
      go :
          (r : Option (World D))
          → Leaves r
          → LeavesTold (elim r [ none ↦ none | some w'' ↦ some (true, w'') ])
      go none l = tt
      go (some w'') l = l

  book-Leaves :
      (cfg : AppConfig D) (o : Order D) (prev : Option (Order D)) (w : World D)
      → IsExclusive w
      → LeavesTold (book cfg o prev w)
  unfolding book
  book-Leaves cfg o none w h = h
  book-Leaves cfg o (some prev) w h = elim (Bool-cases (lit 0 <? (delta o prev).volume)) [
    | inl e ↦ rw e (then_apply-Leaves cfg o w _ h (settle_delta-Leaves o (delta o prev) w h))
    | inr e ↦ rw e (then_apply-Leaves cfg o w (some w) h h)
  ]

  pub reconcile-Leaves :
      (cfg : AppConfig D) (o : Order D) (w : World D)
      → IsExclusive w
      → LeavesTold (reconcile_from_snapshot cfg o w)
  unfolding reconcile_from_snapshot
  reconcile-Leaves cfg o w h = elim (Bool-cases (is_foreign o w)) [
    | inl e ↦ rw e h
    | inr e ↦ rw e (book-Leaves cfg o (get o.id w.store) w h)
  ]

-- One call of a method, when its behaviour is defined. What other engines do to the shared store and
-- account manager between two calls is a step too.
pub data Step {D : Type 0} ⦃d : Double D⦄ (cfg : AppConfig D) (print : MyTrade D → String)
    : World D → World D → Type 0 where
  submits :
      (w : World D) (post : OrderRequest D → PostResult) (r : OrderRequest D)
      → Step cfg print w (submit cfg post r w).1
  trades : (w : World D) (t : MyTrade D) → Step cfg print w (on_my_trade cfg print t w)
  applies :
      (w w' : World D) (o : Order D) → on_order_snapshot cfg o w ≡ some w' → Step cfg print w w'
  reconciles :
      (w w' : World D) (o : Order D) (told : Bool)
      → reconcile_from_snapshot cfg o w ≡ some (told, w')
      → Step cfg print w w'
  polls : (w : World D) → Step cfg print w (poll_events w).1
  marks : (w : World D) (p : D) → Step cfg print w (set_mark_price p w)
  others : (w w' : World D) → w'.engine ≡ w.engine → Step cfg print w w'

pub data Reach {D : Type 0} ⦃d : Double D⦄ (cfg : AppConfig D) (print : MyTrade D → String)
    (w : World D) : World D → Type 0 where
  here : Reach cfg print w w
  next : {w' w'' : World D} → Reach cfg print w w' → Step cfg print w' w'' → Reach cfg print w w''

module _ {D : Type 0} ⦃d : Double D⦄ (cfg : AppConfig D) (print : MyTrade D → String) where
  Step-IsExclusive : {w w' : World D} → Step cfg print w w' → IsExclusive w → IsExclusive w'
  unfolding poll_events set_mark_price
  Step-IsExclusive (submits w post r) h = submit-IsExclusive cfg post r w h
  Step-IsExclusive (trades w t) h = on_my_trade-IsExclusive cfg print t w h
  Step-IsExclusive (applies w w' o e) h = subst Leaves e (on_order_snapshot-Leaves cfg o w h)
  Step-IsExclusive (reconciles w w' o told e) h = subst LeavesTold e (reconcile-Leaves cfg o w h)
  Step-IsExclusive (polls w) h = record { one_side = h.one_side; linked = h.linked }
  Step-IsExclusive (marks w p) h = record { one_side = h.one_side; linked = h.linked }
  Step-IsExclusive (others w w' e) h = ground arith

  -- Whatever methods are called in whatever order, with whatever answers of the exchange, an engine
  -- that holds no buy together with a sell goes on holding none, and the identifier of a buy is held
  -- only with its token.
  pub Reach-IsExclusive : {w w' : World D} → IsExclusive w → Reach cfg print w w' → IsExclusive w'
  Reach-IsExclusive h here = h
  Reach-IsExclusive h (next r st) = Step-IsExclusive st (Reach-IsExclusive h r)
