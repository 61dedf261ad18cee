-- ===== src/Strategy/Cycle.antt =====
-- `onOrderUpdate` at the end of an order, and the fills before it.
use coin_bot.Base.{
  ℕ, String, true, ◌&&◌, none, some, List, [], ◌∷◌, ◌≡◌, refl, ap, ◌∙◌, arith, All, length, ◌≤◌,
  if◌then◌else◌, str_eq, eq_refl,
}
use mathlib.Core.Path.{ap₂}
use coin_bot.Double.{Double, ◌⊕◌, ◌⊗◌, ◌⊘◌, ◌<?◌, lit}
use coin_bot.Domain.OrderTypes.{PositionEffect, is_done}
use coin_bot.Strategy.Types.{FillEvent, OrderStatusEvent}
use coin_bot.Strategy.State.{RsiMeanReversionStrategy, State, set_stops_from_entry}
use coin_bot.Strategy.Follow.{
  is_mine, on_fill, on_order_update, conclude, conclude_entry, conclude_exit, entered, final_price,
  buy_signal, sell_signal,
}

-- Where the strategy stands after the order of a state has ended with an effect.
abbrev pub state_after : State → PositionEffect → State
state_after State.pending_entry PositionEffect.opened = State.in_position
state_after State.pending_entry _ = State.flat
state_after State.pending_exit PositionEffect.closed = State.flat
state_after State.pending_exit _ = State.in_position
state_after State.flat _ = State.in_position
state_after State.in_position _ = State.in_position

is_mine_self : (cid i : String) → i ≡ cid → str_eq i cid ≡ true
is_mine_self cid i e = ap (λ t. str_eq t cid) e ∙ eq_refl cid

module _ {D : Type 0} ⦃d : Double D⦄ where
  entered-state :
      (now : ℕ) (ev : OrderStatusEvent D) (s : RsiMeanReversionStrategy D)
      → ((entered now ev s).1.state ≡ State.in_position) × (length (entered now ev s).0 ≤ 1)
  unfolding entered set_stops_from_entry buy_signal
  entered-state now ev s = ground arith

  conclude-state :
      (now : ℕ) (ev : OrderStatusEvent D) (s : RsiMeanReversionStrategy D)
      → ((conclude now ev s).1.state ≡ state_after s.state ev.position_effect)
        × (length (conclude now ev s).0 ≤ 1)
  unfolding conclude conclude_entry conclude_exit sell_signal
  conclude-state now ev s = ground (arith, entered-state now ev s)

  -- The end of the awaited order leaves the strategy waiting for none, in the state that the order's
  -- effect calls for, with one signal record at most. Any other order event changes neither, and is
  -- not recorded.
  pub order_ends :
      (now : ℕ) (ev : OrderStatusEvent D) (s : RsiMeanReversionStrategy D)
      → let (signals, s') = on_order_update now ev s in
        let ends = is_mine s.pending_client_id ev.identifier && is_done ev.status in
        (s'.pending_client_id ≡ (if ends then none else s.pending_client_id))
        × (s'.state ≡ (if ends then state_after s.state ev.position_effect else s.state))
        × (length signals ≤ (if ends then 1 else 0))
  unfolding on_order_update
  order_ends now ev s = ground (arith, conclude-state now ev s)

  abbrev pub fill_all : List (FillEvent D) → RsiMeanReversionStrategy D → RsiMeanReversionStrategy D
  fill_all [] s = s
  fill_all (f ∷ fs) s = fill_all fs (on_fill f s)

  -- What fills add up to, from a start.
  abbrev pub cost_of : D → List (FillEvent D) → D
  cost_of acc [] = acc
  cost_of acc (f ∷ fs) = cost_of (acc ⊕ f.fill_price ⊗ f.filled_volume) fs

  abbrev pub volume_of : D → List (FillEvent D) → D
  volume_of acc [] = acc
  volume_of acc (f ∷ fs) = volume_of (acc ⊕ f.filled_volume) fs

  abbrev pub IsOf : String → FillEvent D → Type 0
  IsOf cid f = (f.identifier ≡ cid) × ((lit 0 <? f.filled_volume) ≡ true)

  fill_step :
      (cid : String) (f : FillEvent D) (s : RsiMeanReversionStrategy D)
      → s.pending_client_id ≡ some cid
      → IsOf cid f
      → let s' = on_fill f s in
        (s'.pending_client_id ≡ some cid)
        × (s'.pending_filled_volume ≡ s.pending_filled_volume ⊕ f.filled_volume)
        × (s'.pending_cost_sum ≡ s.pending_cost_sum ⊕ f.fill_price ⊗ f.filled_volume)
        × (s'.state ≡ s.state)
  unfolding on_fill
  fill_step cid f s e (mine, positive) = ground (arith, is_mine_self cid f.identifier mine)

  fills_add_up :
      (cid : String) (fs : List (FillEvent D)) (s : RsiMeanReversionStrategy D)
      → s.pending_client_id ≡ some cid
      → All (IsOf cid) fs
      → let s' = fill_all fs s in
        (s'.pending_client_id ≡ some cid)
        × (s'.pending_filled_volume ≡ volume_of s.pending_filled_volume fs)
        × (s'.pending_cost_sum ≡ cost_of s.pending_cost_sum fs)
        × (s'.state ≡ s.state)
  fills_add_up cid [] s e h = (e, refl, refl, refl)
  fills_add_up cid (f ∷ fs) s e (h, hs) =
      let (e', v, c, st) = fill_step cid f s e h in
      let (e'', v', c', st') = fills_add_up cid fs (on_fill f s) e' hs in
      (e'', v' ∙ ap (λ a. volume_of a fs) v, c' ∙ ap (λ a. cost_of a fs) c, st' ∙ st)

  enters_at :
      (now : ℕ) (ev : OrderStatusEvent D) (cid : String) (s : RsiMeanReversionStrategy D)
      → s.pending_client_id ≡ some cid
      → s.state ≡ State.pending_entry
      → str_eq ev.identifier cid ≡ true
      → is_done ev.status ≡ true
      → ev.position_effect ≡ PositionEffect.opened
      → (lit 0 <? s.pending_filled_volume) ≡ true
      → (lit 0 <? s.pending_cost_sum ⊘ s.pending_filled_volume) ≡ true
      → (on_order_update now ev s).1.entry_price
        ≡ some (s.pending_cost_sum ⊘ s.pending_filled_volume)
  unfolding on_order_update conclude conclude_entry entered final_price set_stops_from_entry
  enters_at now ev cid s e st mine done opens some_volume some_price = ground arith

  -- The entry price of a buy is the mean of its fills' prices, each weighed by its volume, as soon as
  -- the order has ended with a position, if all fills are of the order and have a volume.
  pub entry_is_mean :
      (now : ℕ) (ev : OrderStatusEvent D) (cid : String) (fs : List (FillEvent D))
      (s : RsiMeanReversionStrategy D)
      → s.pending_client_id ≡ some cid
      → s.state ≡ State.pending_entry
      → s.pending_filled_volume ≡ lit 0
      → s.pending_cost_sum ≡ lit 0
      → All (IsOf cid) fs
      → str_eq ev.identifier cid ≡ true
      → is_done ev.status ≡ true
      → ev.position_effect ≡ PositionEffect.opened
      → (lit 0 <? volume_of (lit 0) fs) ≡ true
      → (lit 0 <? cost_of (lit 0) fs ⊘ volume_of (lit 0) fs) ≡ true
      → (on_order_update now ev (fill_all fs s)).1.entry_price
        ≡ some (cost_of (lit 0) fs ⊘ volume_of (lit 0) fs)
  entry_is_mean now ev cid fs s e st no_volume no_cost of_it mine done opens some_volume
        some_price =
      let (e', v, c, st') = fills_add_up cid fs s e of_it in
      let v' = v ∙ ap (λ a. volume_of a fs) no_volume in
      let c' = c ∙ ap (λ a. cost_of a fs) no_cost in
      enters_at now ev cid (fill_all fs s) e' (st' ∙ st) mine done opens
        (ap (λ a. lit 0 <? a) v' ∙ some_volume) (ap (λ a. lit 0 <? a) (ap₂ ◌⊘◌ c' v') ∙ some_price)
      ∙ ap some (ap₂ ◌⊘◌ c' v')
