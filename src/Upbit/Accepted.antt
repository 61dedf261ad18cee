-- ===== src/Upbit/Accepted.antt =====
-- `postOrder` of an order that `validateRequest` of the engine lets through.
use coin_bot.Base.{true, false, not, ◌||◌, ◌≡◌, refl, arith, is_some, is_empty}
use coin_bot.Double.{Double}
use coin_bot.Domain.OrderTypes.{is_limit}
use coin_bot.Domain.Order.{OrderRequest}
use coin_bot.Engine.Request.{validate_request, is_amount}
use coin_bot.Upbit.Exchange.{
  Client, Reply, reply, refused, OrderPayloadFields, build_order_payload_fields, order_request,
  prepare_order,
}

module _ {J D : Type 0} (client : Client J D) ⦃d : Double D⦄ where
  -- The fields that fit an order: the price with a limit or an amount, the volume without an amount.
  pub record Fits (r : OrderRequest D) (fields : OrderPayloadFields) : Type 0 where
    pub price : is_some fields.price_field ≡ is_limit r.type || is_amount r.size
    pub volume : is_some fields.volume_field ≡ not (is_amount r.size)

  -- A reply, and its fields fit.
  abbrev Built : OrderRequest D → Reply OrderPayloadFields → Type 0
  Built r (refused e) = ⊥
  Built r (reply fields) = Fits r fields

  build-Built :
      (r : OrderRequest D)
      → validate_request r ≡ true
      → Built r (build_order_payload_fields client.fixed r)
  unfolding validate_request build_order_payload_fields
  build-Built r h = ground arith

  fields_given :
      (r : OrderRequest D) (x : Reply OrderPayloadFields)
      → Built r x
      → (fields : OrderPayloadFields) × (x ≡ reply fields) × Fits r fields
  fields_given r (refused e) h = elim h [ ]
  fields_given r (reply fields) h = (fields, refl, h)

  -- An order that the engine's check lets through is sent: the client finds nothing wrong with it, and its
  -- request has the price and the volume that an order of its kind has, and no other.
  pub accepted_is_sent :
      (r : OrderRequest D)
      → validate_request r ≡ true
      → (fields : OrderPayloadFields) × (prepare_order client r
          ≡ reply (order_request client r fields))
        × Fits r fields
  unfolding prepare_order validate_request
  accepted_is_sent r h =
      let (fields, e, fits) = fields_given r _ (build-Built r h) in
      let named : is_empty r.market ≡ false = ground arith in (fields, rw (named, e) refl, fits)
