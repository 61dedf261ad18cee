-- ===== src/Startup/Tests.antt =====
-- The recovery's theorems at an account with one coin and a list of three open orders.
use coin_bot.Base.{
  String, Option, none, some, List, [], ◌∷◌, ◌≡◌, refl, arith, is_empty, if◌then◌else◌, value_or,
  ◌==◌,
}
use coin_bot.Double.Int.{ℤ, pos, int_double}
use coin_bot.Domain.OrderTypes.{OrderPosition, OrderType, OrderStatus}
use coin_bot.Domain.Order.{Order}
use coin_bot.Domain.Account.{Account, Position}
use coin_bot.EventRouter.Extract.{strip_key}
use coin_bot.Strategy.State.{construct}
use coin_bot.Strategy.Tests.{params, blank}
use coin_bot.Startup.{
  Options, Answers, get_open_orders, cancel_order, split_dash, cancel_bot_open_orders, run,
  no_position,
}
use coin_bot.Startup.Cancel.{AreOwn, Cancels, own_orders, only_own_orders}
use coin_bot.Startup.Held.{StandsAt, recovers_position}

abbrev opt : Options
opt = record { bot_identifier_prefix = "rsi:KRW-BTC:"; cancel_retry = 2; verify_retry = 1 }

abbrev order : String → Option String → Order ℤ
order id identifier = record {
  market = "KRW-BTC";
  identifier = identifier;
  id = id;
  position = OrderPosition.bid;
  type = OrderType.market;
  price = none;
  volume = none;
  requested_amount = none;
  executed_volume = pos 0;
  remaining_volume = pos 0;
  trades_count = 0;
  reserved_fee = pos 0;
  paid_fee = pos 0;
  remaining_fee = pos 0;
  locked = pos 0;
  executed_funds = pos 0;
  status = OrderStatus.open_;
  created_at = "";
}

abbrev open_orders : List (Order ℤ)
open_orders =
    order "u1" (some "rsi:KRW-BTC:1") ∷ order "u2" none ∷ order "u3" (some "rsi:KRW-ETH:1") ∷ []

abbrev held : Position ℤ
held = record { currency = "BTC"; free = pos 3; avg_buy_price = pos 50; unit_currency = "KRW" }

abbrev account : Account ℤ
account = record {
  id = "";
  krw_free = pos 100;
  krw_locked = pos 0;
  positions =
      record { currency = "KRW"; free = pos 100; avg_buy_price = pos 0; unit_currency = "KRW" }
      ∷ held
      ∷ [];
  total_asset_value = pos 0;
}

-- The first try to cancel fails, the second succeeds.
abbrev answers : Answers ℤ
answers = record {
  open_orders = λ n. if n == 0 then some open_orders else some [];
  cancel = λ uuid identifier i. i == 1;
  my_account = some account;
}

-- The order without an identifier and that of another market are left alone.
cancelled : cancel_bot_open_orders answers opt ≡ (
  get_open_orders
      ∷ cancel_order (some "u1") (some "rsi:KRW-BTC:1")
      ∷ cancel_order (some "u1") (some "rsi:KRW-BTC:1")
      ∷ get_open_orders
      ∷ [],
  1,
)
unfolding cancel_bot_open_orders strip_key
cancelled = refl

only_own_orders_example :
    let (calls, count) = cancel_bot_open_orders answers opt in
    let os =
      if is_empty opt.bot_identifier_prefix then [] else value_or (answers.open_orders 0) [] in
    AreOwn opt.bot_identifier_prefix os (own_orders opt os)
    × Cancels answers opt.cancel_retry (own_orders opt os) calls count
only_own_orders_example = only_own_orders answers opt (omega arith)

split : split_dash "KRW-BTC" ≡ some ("KRW", "BTC")
unfolding split_dash
split = refl

recovers_position_example :
    StandsAt
      (record { coin = pos 3; avg_entry_price = pos 50 })
      (run answers "KRW-BTC" opt (construct blank "KRW-BTC" params)).1
    × StandsAt no_position
        (run
          (record answers { my_account = none })
          "KRW-BTC"
          opt
          (construct blank "KRW-BTC" params)).1
recovers_position_example =
    recovers_position answers "KRW-BTC" "KRW" "BTC" opt (construct blank "KRW-BTC" params) account
      (record { currency = "KRW"; free = pos 100; avg_buy_price = pos 0; unit_currency = "KRW" }
        ∷ [])
      [] held split refl refl (refl, tt) refl
