-- ===== src/Engine/Reconcile.antt =====
-- `reconcileFromSnapshot` of engine/MarketEngine.cpp: the fills that were missed are booked, then the
-- snapshot is applied.
use coin_bot.Base.{Bool, true, false, Option, none, some, not, if◌then◌else◌, str_eq}
use coin_bot.Double.{Double, ◌⊕◌, ◌⊖◌, ◌⊘◌, ◌<?◌, ◌≤?◌, lit, max}
use coin_bot.Domain.OrderTypes.{is_bid}
use coin_bot.Domain.Order.{Order}
use coin_bot.Domain.Account.{AppConfig}
use coin_bot.Account.{finalize_fill_buy, finalize_fill_sell}
use coin_bot.Account.Token.{ReservationToken}
use coin_bot.OrderStore.{get}
use coin_bot.Engine.{World, set_accounts}
use coin_bot.Engine.Snapshot.{on_order_snapshot, is_foreign}

-- What a snapshot adds to the sums of the store.
pub record Delta (D : Type 0) : Type 0 where
  pub volume : D
  pub funds : D
  pub paid_fee : D

module _ {D : Type 0} ⦃d : Double D⦄ where
  unfoldable pub delta : Order D → Order D → Delta D
  delta snapshot prev = record {
    volume = max (lit 0) (snapshot.executed_volume ⊖ prev.executed_volume);
    funds = max (lit 0) (snapshot.executed_funds ⊖ prev.executed_funds);
    paid_fee = max (lit 0) (snapshot.paid_fee ⊖ prev.paid_fee);
  }

  -- `none`: the amount cannot be told, and `reconcileFromSnapshot` returns false.
  unfoldable pub settle_delta_buy :
      Order D → Delta D → Option (ReservationToken D) → World D → Option (World D)
  settle_delta_buy snapshot x none w = none
  settle_delta_buy snapshot x (some token) w =
      if not (str_eq w.engine.active_buy_order_uuid snapshot.id)
      then none
      else let fill_price = x.funds ⊘ x.volume in
        if fill_price ≤? lit 0
        then none
        else let (token', m) =
            finalize_fill_buy w.accounts token (x.funds ⊕ x.paid_fee) x.volume fill_price in
          some (record w {
            engine = record (w.engine) { active_buy_token = some token' };
            accounts = m;
          })

  unfoldable pub settle_delta : Order D → Delta D → World D → Option (World D)
  unfolding settle_delta_buy
  settle_delta snapshot x w =
      if x.funds ≤? lit 0
      then none
      else if is_bid snapshot.position
      then settle_delta_buy snapshot x w.engine.active_buy_token w
      else if not (str_eq w.engine.active_sell_order_uuid snapshot.id)
      then none
      else some (
          set_accounts w (
            finalize_fill_sell w.accounts w.engine.market x.volume
              (max (lit 0) (x.funds ⊖ x.paid_fee))))

  unfoldable pub then_apply :
      AppConfig D → Order D → World D → Option (World D) → Option (Bool × World D)
  then_apply cfg snapshot w none = some (false, w)
  then_apply cfg snapshot w (some w') = elim (on_order_snapshot cfg snapshot w') [
    | none ↦ none
    | some w'' ↦ some (true, w'')
  ]

  unfoldable pub book : AppConfig D → Order D → Option (Order D) → World D → Option (Bool × World D)
  unfolding settle_delta then_apply delta
  book cfg snapshot none w = some (false, w)
  book cfg snapshot (some prev) w =
      let x = delta snapshot prev in
      then_apply cfg snapshot w (if lit 0 <? x.volume then settle_delta snapshot x w else some w)

  -- The Boolean is what the method returns; `none` is undefined behaviour in `onOrderSnapshot`.
  unfoldable pub reconcile_from_snapshot : AppConfig D → Order D → World D → Option (Bool × World D)
  unfolding book
  reconcile_from_snapshot cfg snapshot w =
      if is_foreign snapshot w
      then some (false, w)
      else book cfg snapshot (get snapshot.id w.store) w
