-- ===== src/Manager/Pending.antt =====
-- `checkPendingTimeout_` on every branch.
use coin_bot.Base.{
  ℕ, String, Bool, true, false, not, ◌&&◌, Option, none, some, ◌≡◌, ◌-◌, is_empty, leb,
  if◌then◌else◌,
}
use coin_bot.Double.{Double}
use coin_bot.Domain.OrderTypes.{is_done}
use coin_bot.Domain.Order.{Order}
use coin_bot.Json.{Json, ◌>>=◌}
use coin_bot.Engine.{World}
use coin_bot.Engine.Reconcile.{reconcile_from_snapshot}
use coin_bot.Manager.{Setup, Outside, Worker, MarketContext, set_ctx, set_world, insert_order}
use coin_bot.Manager.Recovery.{query_order_with_retry, is_pending}

module _ {D : Type 0} where
  -- The uuid of the order that is pending, if one is.
  abbrev pub pending_id : World D → String
  pending_id x =
      if is_empty x.engine.active_buy_order_uuid
      then x.engine.active_sell_order_uuid
      else x.engine.active_buy_order_uuid

  -- When the pending period began: it begins now, if it had not.
  abbrev pub pending_since : Outside D → MarketContext D → ℕ
  pending_since x c = if c.tracking_pending then c.pending_entered_at else x.now_entered

  abbrev pub is_due : Setup D → Outside D → Worker D → Bool
  is_due setup x w =
      is_pending w.world && leb setup.pending_timeout (x.now_checked - pending_since x w.ctx)

  -- The worker with the timer that a check leaves: it runs while an order is pending, and stops when due.
  abbrev pub timed : Setup D → Outside D → Worker D → Worker D
  timed setup x w = set_ctx w (record (w.ctx) {
    has_active_pending = is_pending w.world;
    tracking_pending = is_pending w.world && not (is_due setup x w);
    pending_entered_at =
        if is_pending w.world then pending_since x w.ctx else w.ctx.pending_entered_at;
    pending_timeout_fired = false;
  })

  -- What a check learns of the pending order: nothing before it is due, and then the first answer of three
  -- tries.
  abbrev pub answer_to : Setup D → Outside D → Worker D → Option (Order D)
  answer_to setup x w =
      if is_due setup x w
      then query_order_with_retry (x.get_order_late (pending_id w.world)) 0 3
      else none

module _ {D : Type 0} ⦃d : Double D⦄ where
  -- The worker `w'` is `w` after an answer: the same without one; else with the world that the engine's
  -- reconciliation of the answer leaves, and with the order in the database, if the reconciliation
  -- succeeded and the order has ended.
  abbrev pub Learns : Setup D → Option (Order D) → Worker D → Worker D → Type 0
  Learns setup none w w' = w' ≡ w
  Learns setup (some o) w w' =
      (told : Bool) × (y : World D) × (reconcile_from_snapshot setup.app o w.world ≡ some (told, y))
      × (w' ≡ insert_order setup (is_done o.status && told) o (set_world w y))

  abbrev Recovers : Setup D → Option (Order D) → Worker D → Option (Worker D) → Type 0
  Recovers setup answer w r = (w' : Worker D) × (r ≡ some w') × Learns setup answer w w'

  -- The worker while an order is pending, with the timer running, and fired or not.
  abbrev running : Outside D → Bool → Worker D → Worker D
  running x fired w = set_ctx w (record (w.ctx) {
    has_active_pending = true;
    tracking_pending = true;
    pending_entered_at = pending_since x w.ctx;
    pending_timeout_fired = fired;
  })
