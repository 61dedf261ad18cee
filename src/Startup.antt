-- ===== src/Startup.antt =====
-- app/StartupRecovery.h and .cpp: the bot's own open orders are cancelled, and the strategy is told what
-- the account holds. The two overloads of each function are one template. What is called of the exchange
-- is a list, since the answers come from outside.
pub mod Cancel
pub mod Held
mod Own
mod Tests
use coin_bot.Base.{
  ℕ, zero, suc, ◌+◌, String, Bool, true, false, not, ◌&&◌, ◌||◌, Option, none, some, List, [], ◌∷◌,
  ◌++◌, if◌then◌else◌, is_some, is_empty, str_eq, ◌==◌,
}
use coin_bot.Double.{Double, lit}
use coin_bot.Domain.Order.{Order}
use coin_bot.Domain.Account.{Account, Position}
use coin_bot.EventRouter.Extract.{strip_key}
use coin_bot.Strategy.Types.{PositionSnapshot}
use coin_bot.Strategy.State.{RsiMeanReversionStrategy, sync_on_start}
use Prim.Native.Char.{Char, code}

pub record Options : Type 0 where
  pub bot_identifier_prefix : String
  pub cancel_retry : ℕ
  pub verify_retry : ℕ

-- The calls of the exchange that a recovery makes, in order.
pub data Call : Type 0 where
  get_open_orders : Call
  cancel_order : Option String → Option String → Call
  get_my_account : Call

-- What the exchange answers: `none` is an error. The numbers count calls from 0; `cancel` says whether
-- the answer is `true`.
pub record Answers (D : Type 0) : Type 0 where
  pub open_orders : ℕ → Option (List (Order D))
  pub cancel : Option String → Option String → ℕ → Bool
  pub my_account : Option (Account D)

-- `startsWith`
abbrev pub starts_with : String → String → Bool
starts_with prefix s = is_some (strip_key prefix s)

abbrev pub own_identifier : String → Option String → Bool
own_identifier prefix none = false
own_identifier prefix (some i) = starts_with prefix i

-- The text on either side of the first dash.
abbrev put_left : Char → Option (String × String) → Option (String × String)
put_left c none = none
put_left c (some (l, r)) = some (String.◌∷◌ c l, r)

unfoldable pub split_dash : String → Option (String × String)
split_dash String.[] = none
split_dash (String.◌∷◌ c s) = if code c == b'-' then some ("", s) else put_left c (split_dash s)

abbrev side_of {ℓ} : {A : Type ℓ} → (A → String) → Option A → String
side_of f none = ""
side_of f (some p) = f p

-- `unitCurrency` and `baseCurrency`: "KRW" and "BTC" of "KRW-BTC"
unfoldable pub unit_currency : String → String
unfolding split_dash
unit_currency market = side_of (λ p. p.0) (split_dash market)

unfoldable pub base_currency : String → String
unfolding split_dash
base_currency market = side_of (λ p. p.1) (split_dash market)

module _ {D : Type 0} where
  abbrev pub is_own : Options → Order D → Bool
  is_own opt o = own_identifier opt.bot_identifier_prefix o.identifier

  abbrev pub uuid_of : Order D → Option String
  uuid_of o = if is_empty o.id then none else some o.id

  -- The tries of one order, the first of them number `i`: their calls, and whether one succeeded.
  unfoldable pub try_cancel : (ℕ → Bool) → Order D → ℕ → ℕ → List Call × Bool
  try_cancel answer o i zero = ([], false)
  try_cancel answer o i (suc left) =
      let call = cancel_order (uuid_of o) o.identifier in
      let rest = try_cancel answer o (i + 1) left in
      if answer i then (call ∷ [], true) else (call ∷ rest.0, rest.1)

  unfoldable pub cancel_each : Answers D → Options → List (Order D) → List Call × ℕ
  unfolding try_cancel
  cancel_each x opt [] = ([], 0)
  cancel_each x opt (o ∷ os) =
      let rest = cancel_each x opt os in
      let tries = try_cancel (x.cancel (uuid_of o) o.identifier) o 0 opt.cancel_retry in
      if is_own opt o then (tries.0 ++ rest.0, if tries.1 then rest.1 + 1 else rest.1) else rest

  unfoldable pub any_own : Options → List (Order D) → Bool
  any_own opt [] = false
  any_own opt (o ∷ os) = is_own opt o || any_own opt os

  -- The looks at what remains, the first of them call number `n`.
  unfoldable pub verify : Answers D → Options → ℕ → ℕ → List Call
  unfolding any_own
  verify x opt n zero = []
  verify x opt n (suc left) =
      let again = verify x opt (n + 1) left in
      elim (x.open_orders n) [
        | none ↦ get_open_orders ∷ []
        | some remain ↦ if any_own opt remain then get_open_orders ∷ again else get_open_orders ∷ []
      ]

  -- `cancelBotOpenOrders`; the number is the count that is logged.
  unfoldable pub cancel_bot_open_orders : Answers D → Options → List Call × ℕ
  unfolding cancel_each verify
  cancel_bot_open_orders x opt =
      if is_empty opt.bot_identifier_prefix then ([], 0) else elim (x.open_orders 0) [
        | none ↦ (get_open_orders ∷ [], 0)
        | some open_ ↦
            let (calls, count) = cancel_each x opt open_ in
            (get_open_orders ∷ (calls ++ verify x opt 1 opt.verify_retry), count)
      ]

module _ {D : Type 0} ⦃d : Double D⦄ where
  abbrev pub no_position : PositionSnapshot D
  no_position = record { coin = lit 0; avg_entry_price = lit 0 }

  -- The first position in the two currencies.
  unfoldable pub find_position : String → String → List (Position D) → PositionSnapshot D
  find_position base unit [] = no_position
  find_position base unit (p ∷ ps) =
      if str_eq p.currency base && str_eq p.unit_currency unit
      then record { coin = p.free; avg_entry_price = p.avg_buy_price }
      else find_position base unit ps

  unfoldable pub position_in : String → Option (Account D) → PositionSnapshot D
  unfolding find_position base_currency unit_currency
  position_in market none = no_position
  position_in market (some a) =
      if is_empty (base_currency market) || is_empty (unit_currency market)
      then no_position
      else find_position (base_currency market) (unit_currency market) a.positions

  -- `buildPositionSnapshot`
  unfoldable pub build_position_snapshot : Answers D → String → List Call × PositionSnapshot D
  unfolding position_in
  build_position_snapshot x market = (get_my_account ∷ [], position_in market x.my_account)

  unfoldable pub run :
      Answers D
      → String
      → Options
      → RsiMeanReversionStrategy D
      → List Call × RsiMeanReversionStrategy D
  unfolding cancel_bot_open_orders build_position_snapshot
  run x market opt s =
      let (cancels, count) = cancel_bot_open_orders x opt in
      let (reads, pos) = build_position_snapshot x market in (cancels ++ reads, sync_on_start pos s)
