-- ===== src/Engine/Request.antt =====
-- `validateRequest` and `computeReserveAmount` of engine/MarketEngine.cpp. The reason of a refusal is
-- text for the log.
use coin_bot.Base.{
  Bool, true, false, Option, none, some, not, ◌&&◌, if◌then◌else◌, is_some, is_empty, value_or,
}
use coin_bot.Double.{Double, ◌⊗◌, ◌≤?◌, lit}
use coin_bot.Domain.OrderTypes.{is_bid, is_limit}
use coin_bot.Domain.Order.{OrderRequest, OrderSize, volume_size, amount_size}
use coin_bot.Domain.Account.{EngineConfig}

module _ {D : Type 0} where
  -- `std::holds_alternative`
  abbrev pub is_volume : OrderSize D → Bool
  is_volume (volume_size v) = true
  is_volume (amount_size a) = false

  abbrev pub is_amount : OrderSize D → Bool
  is_amount (volume_size v) = false
  is_amount (amount_size a) = true

  abbrev pub size_value : OrderSize D → D
  size_value (volume_size v) = v
  size_value (amount_size a) = a

  -- The shape that the exchange wants of a limit or market order.
  abbrev has_shape : OrderRequest D → Bool
  has_shape r =
      if is_limit r.type
      then (if not (is_some r.price) then false else is_volume r.size)
      else if is_some r.price
      then false
      else if is_bid r.position && not (is_amount r.size)
      then false
      else not (not (is_bid r.position) && not (is_volume r.size))

module _ {D : Type 0} ⦃d : Double D⦄ where
  abbrev price_not_positive : Option D → Bool
  price_not_positive none = false
  price_not_positive (some p) = p ≤? lit 0

  unfoldable pub validate_request : OrderRequest D → Bool
  validate_request r =
      if is_empty r.market
      then false
      else if not (is_volume r.size) && not (is_amount r.size)
      then false
      else if not (has_shape r)
      then false
      else if is_amount r.size && size_value r.size ≤? lit 0
      then false
      else if is_volume r.size && size_value r.size ≤? lit 0
      then false
      else not (price_not_positive r.price)

  pub compute_reserve_amount : EngineConfig D → OrderRequest D → D
  compute_reserve_amount cfg r = elim (r.size) [
    | amount_size base ↦ base ⊗ cfg.reserve_margin
    | volume_size volume ↦ value_or r.price (lit 0) ⊗ volume ⊗ cfg.reserve_margin
  ]
