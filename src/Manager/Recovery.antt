-- ===== src/Manager/Recovery.antt =====
-- `runRecovery_`, `queryOrderWithRetry_` and `checkPendingTimeout_`: an order that stays pending is looked
-- up at the exchange. `none` is undefined behaviour of the engine.
use coin_bot.Base.{
  ℕ, zero, suc, ◌+◌, ◌-◌, String, Bool, true, false, not, ◌&&◌, ◌||◌, Option, none, some,
  if◌then◌else◌, is_empty, leb,
}
use coin_bot.Double.{Double}
use coin_bot.Domain.OrderTypes.{is_done}
use coin_bot.Domain.Order.{Order}
use coin_bot.Json.{◌>>=◌}
use coin_bot.Engine.{World, active_pending_ids}
use coin_bot.Engine.Reconcile.{reconcile_from_snapshot}
use coin_bot.Manager.{Setup, Outside, Worker, set_ctx, set_world, insert_order}

module _ {D : Type 0} where
  -- The first answer that is an order, of `left` tries from number `i` on.
  unfoldable pub query_order_with_retry : (ℕ → Option (Order D)) → ℕ → ℕ → Option (Order D)
  query_order_with_retry answer i zero = none
  query_order_with_retry answer i (suc left) =
      let again = query_order_with_retry answer (i + 1) left in
      elim (answer i) [ none ↦ again | some o ↦ some o ]

  abbrev pub reset_timer : Worker D → Worker D
  reset_timer w =
      set_ctx w (record (w.ctx) { tracking_pending = false; pending_timeout_fired = false })

  abbrev pub is_pending : World D → Bool
  is_pending x =
      not (is_empty x.engine.active_buy_order_uuid)
      || not (is_empty x.engine.active_sell_order_uuid)

module _ {D : Type 0} ⦃d : Double D⦄ where
  unfoldable pub take_recovered :
      Setup D → Order D → Option (Bool × World D) → Worker D → Option (Worker D)
  unfolding insert_order
  take_recovered setup o none w = none
  take_recovered setup o (some (reconciled, x)) w =
      some (insert_order setup (is_done o.status && reconciled) o (set_world w x))

  unfoldable pub recover_found : Setup D → Option (Order D) → Worker D → Option (Worker D)
  unfolding take_recovered
  recover_found setup none w = some w
  recover_found setup (some o) w =
      take_recovered setup o (reconcile_from_snapshot setup.app o w.world) w

  -- One of the two orders. The account that is read after a failure is only logged.
  unfoldable pub recover_one :
      Setup D → (String → ℕ → Option (Order D)) → String → Worker D → Option (Worker D)
  unfolding query_order_with_retry recover_found
  recover_one setup get_order order_uuid w =
      if is_empty order_uuid
      then some w
      else recover_found setup (query_order_with_retry (get_order order_uuid) 0 3) w

  unfoldable pub run_recovery :
      Setup D → (String → ℕ → Option (Order D)) → Worker D → Option (Worker D)
  unfolding recover_one
  run_recovery setup get_order w =
      let (buy_order_uuid, sell_order_uuid) = active_pending_ids w.world in
      if is_empty buy_order_uuid && is_empty sell_order_uuid then some (reset_timer w) else (do
        w' ← recover_one setup get_order buy_order_uuid w
        w'' ← recover_one setup get_order sell_order_uuid w'
        some (reset_timer w''))

  -- The pending period begins, if it has not.
  unfoldable pub track : ℕ → Worker D → Worker D
  track now w =
      if w.ctx.tracking_pending
      then w
      else set_ctx w (record (w.ctx) {
        tracking_pending = true;
        pending_entered_at = now;
        pending_timeout_fired = false;
      })

  unfoldable pub fire_when_due : Setup D → Outside D → Worker D → Option (Worker D)
  unfolding run_recovery
  fire_when_due setup x w =
      if w.ctx.pending_timeout_fired
      then some w
      else if leb setup.pending_timeout (x.now_checked - w.ctx.pending_entered_at)
      then run_recovery setup x.get_order_late
          (set_ctx w (record (w.ctx) { pending_timeout_fired = true }))
      else some w

  -- The clock is steady: `now_checked` is not before the time that the period began.
  unfoldable pub check_pending_timeout : Setup D → Outside D → Worker D → Option (Worker D)
  unfolding track fire_when_due
  check_pending_timeout setup x w =
      let pending = is_pending w.world in
      let w' = set_ctx w (record (w.ctx) { has_active_pending = pending }) in
      if pending then fire_when_due setup x (track x.now_entered w') else some (reset_timer w')
