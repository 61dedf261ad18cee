-- ===== src/Account/Tests.antt =====
-- Runs of `AccountManager` on whole KRW, and the theorems at inputs that meet their hypotheses.
use coin_bot.Base.{arith, true, false, none, some, List, [], ◌∷◌, ◌≡◌, refl}
use coin_bot.Base.Dict.{lookup, replace}
use coin_bot.Double.{◌⊕◌}
use coin_bot.Double.Exact.{◌≼◌, IsNonneg}
use coin_bot.Double.Int.{ℤ, pos, int_double, ℤ-IsExact, pos_nonneg, pos_ordered}
use coin_bot.Domain.Account.{Account, AccountConfig}
use coin_bot.Account.{
  AccountManager, MarketBudget, reserve, release, finalize_fill_sell, finalize_order,
}
use coin_bot.Account.Token.{ReservationToken, create}
use coin_bot.Account.Build.{no_stats, empty_budget, rebuild_from_account}
use coin_bot.Account.Solvent.{IsFunded, IsSolvent}
use coin_bot.Account.Lifecycle.{Fill, fill_all}
use coin_bot.Account.Conservation.{krw, order_conserves, release-reserve}
use coin_bot.Account.Reserve.{Step, Reach, Reach-IsSolvent}
use coin_bot.Account.Sell.{sell_each, sale_adds_up}

abbrev cfg : AccountConfig ℤ
cfg = record {
  coin_epsilon = pos 1;
  krw_dust_threshold = pos 2;
  init_dust_threshold_krw = pos 5000;
}

abbrev budget : MarketBudget ℤ
budget = record (empty_budget "KRW-BTC") {
  available_krw = pos 10000;
  coin_balance = pos 3;
  avg_entry_price = pos 50;
}

abbrev manager : AccountManager ℤ
manager = record {
  budgets = ("KRW-BTC", budget) ∷ ("KRW-ETH", empty_budget "KRW-ETH") ∷ [];
  next_token_id = 1;
  stats = no_stats;
}

abbrev token : ReservationToken ℤ
token = record {
  has_manager = true;
  market = "KRW-BTC";
  amount = pos 8000;
  consumed = pos 0;
  id = 1;
  active = true;
}

abbrev after_reserve : AccountManager ℤ
after_reserve = record {
  budgets =
      ("KRW-BTC", record budget { available_krw = pos 2000; reserved_krw = pos 8000 })
      ∷ ("KRW-ETH", empty_budget "KRW-ETH")
      ∷ [];
  next_token_id = 2;
  stats = record no_stats { total_reserves = 1 };
}

abbrev fills : List (Fill ℤ)
fills =
    record { executed_krw = pos 3000; received_coin = pos 30; fill_price = pos 100 }
    ∷ record { executed_krw = pos 4000; received_coin = pos 40; fill_price = pos 100 }
    ∷ []

reserves_some : reserve manager "KRW-BTC" (pos 8000) ≡ (some token, after_reserve)
unfolding reserve lookup replace create
reserves_some = refl

refuses_unknown : (reserve manager "KRW-XRP" (pos 1)).0 ≡ none
unfolding reserve lookup
refuses_unknown = refl

found : lookup "KRW-BTC" manager.budgets ≡ some budget
unfolding lookup
found = refl

budget-IsFunded : IsFunded budget
budget-IsFunded = record { available = pos_nonneg 10000; reserved = pos_nonneg 0 }

order_conserves_example :
    let (t', m') = fill_all after_reserve token fills in
    let (t'', m'') = finalize_order cfg m' t' in
    (b'' : MarketBudget ℤ) × (lookup "KRW-BTC" m''.budgets ≡ some b'')
    × (krw b'' ⊕ t'.consumed ≡ krw budget)
    × (t'.consumed ≼ pos 8000)
    × (t''.active ≡ false)
order_conserves_example =
    order_conserves cfg manager after_reserve "KRW-BTC" (pos 8000) budget token fills found
      budget-IsFunded reserves_some

release-reserve_example : (release after_reserve token).1.budgets ≡ manager.budgets
release-reserve_example =
    release-reserve manager after_reserve "KRW-BTC" (pos 8000) budget token found
      budget-IsFunded.reserved reserves_some

manager-IsSolvent : IsSolvent manager
manager-IsSolvent =
    (budget-IsFunded, (record { available = pos_nonneg 0; reserved = pos_nonneg 0 }, tt))

abbrev account : Account ℤ
account = record {
  id = "";
  krw_free = pos 9001;
  krw_locked = pos 0;
  positions = [];
  total_asset_value = pos 0;
}

Reach-IsSolvent_example : IsSolvent (
    rebuild_from_account cfg account
      (finalize_fill_sell (reserve manager "KRW-BTC" (pos 8000)).1 "KRW-ETH" (pos 1) (pos 9)))
Reach-IsSolvent_example = Reach-IsSolvent cfg manager-IsSolvent (
    Reach.next
      (Reach.next (Reach.next Reach.here (Step.reserves manager "KRW-BTC" (pos 8000)))
        (Step.sells (reserve manager "KRW-BTC" (pos 8000)).1 "KRW-ETH" (pos 1) (pos 9)))
      (Step.rebuilds
        (finalize_fill_sell (reserve manager "KRW-BTC" (pos 8000)).1 "KRW-ETH" (pos 1) (pos 9))
        account (pos_nonneg 9001)))

abbrev sales : List (ℤ × ℤ)
sales = (pos 1, pos 60) ∷ (pos 2, pos 50) ∷ []

sale_adds_up_example :
    ((sell_each sales "KRW-BTC" manager).budgets
      ≡ replace "KRW-BTC"
          (record budget { coin_balance = pos 0; available_krw = pos 10110 })
          manager.budgets)
    × IsNonneg (pos 0)
sale_adds_up_example =
    sale_adds_up sales "KRW-BTC" manager budget found ((refl, refl), ((refl, refl), tt))
      (pos_ordered 3 3 (omega arith))
