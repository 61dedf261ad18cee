-- ===== src/Account/Build.antt =====
-- The constructor of `AccountManager` and `rebuildFromAccount`: the budgets from the exchange's account.
use Prim.Native.String.{◌++◌}
use coin_bot.Base.{
  ℕ, zero, suc, ◌+◌, String, Option, none, some, List, [], ◌∷◌, if◌then◌else◌, length,
}
use coin_bot.Base.Dict.{Dict, lookup, insert, replace, update_all}
use coin_bot.Double.{Double, ◌⊗◌, ◌⊘◌, ◌<?◌, ◌≤?◌, ◌=?◌, lit}
use coin_bot.Domain.Account.{Account, Position, AccountConfig}
use coin_bot.Account.{AccountManager, MarketBudget, Stats}

abbrev pub no_stats : Stats
no_stats = record {
  total_reserves = 0;
  total_releases = 0;
  total_fills_buy = 0;
  total_fills_sell = 0;
  reserve_failures = 0;
}

abbrev pub market_of : String → String
market_of currency = "KRW-" ++ currency

module _ {D : Type 0} ⦃d : Double D⦄ where
  abbrev pub empty_budget : String → MarketBudget D
  empty_budget market = record {
    market = market;
    available_krw = lit 0;
    reserved_krw = lit 0;
    coin_balance = lit 0;
    avg_entry_price = lit 0;
    initial_capital = lit 0;
    realized_pnl = lit 0;
  }

  -- step 1 of the constructor
  unfoldable pub open_budgets : List String → Dict (MarketBudget D) → Dict (MarketBudget D)
  open_budgets [] m = m
  open_budgets (k ∷ ks) m = open_budgets ks (insert k (empty_budget k) m)

  -- One position of the account, in step 2 of the constructor.
  unfoldable pub load_position : D → Position D → MarketBudget D → MarketBudget D
  load_position threshold p b =
      let coin_value = p.free ⊗ p.avg_buy_price in
      if coin_value <? threshold
      then record b { coin_balance = lit 0; avg_entry_price = lit 0; initial_capital = lit 0 }
      else record b {
        coin_balance = p.free;
        avg_entry_price = p.avg_buy_price;
        initial_capital = coin_value;
        available_krw = lit 0;
      }

  -- The same in step 2 of `rebuildFromAccount`, which keeps the initial capital.
  unfoldable pub reload_position : D → Position D → MarketBudget D → MarketBudget D
  reload_position threshold p b =
      let coin_value = p.free ⊗ p.avg_buy_price in
      if coin_value <? threshold
      then record b { coin_balance = lit 0; avg_entry_price = lit 0 }
      else record b {
        coin_balance = p.free;
        avg_entry_price = p.avg_buy_price;
        available_krw = lit 0;
        reserved_krw = lit 0;
      }

  unfoldable pub place :
      (Position D → MarketBudget D → MarketBudget D)
      → Position D
      → Dict (MarketBudget D)
      → Dict (MarketBudget D)
  place f p m = elim (lookup (market_of p.currency) m) [
    | none ↦ m
    | some b ↦ replace (market_of p.currency) (f p b) m
  ]

  unfoldable pub place_all :
      (Position D → MarketBudget D → MarketBudget D)
      → List (Position D)
      → Dict (MarketBudget D)
      → Dict (MarketBudget D)
  unfolding place
  place_all f [] m = m
  place_all f (p ∷ ps) m = place_all f ps (place f p m)

  -- `markets_without_coin`
  unfoldable pub count_without_coin : Dict (MarketBudget D) → ℕ
  count_without_coin [] = 0
  count_without_coin ((_, b) ∷ m) =
      let rest = count_without_coin m in if b.coin_balance =? lit 0 then rest + 1 else rest

  unfoldable pub fund : D → MarketBudget D → MarketBudget D
  fund per_market b =
      if b.coin_balance =? lit 0
      then record b { available_krw = per_market; initial_capital = per_market }
      else b

  -- step 3 of the constructor
  unfoldable pub distribute : D → Dict (MarketBudget D) → Dict (MarketBudget D)
  distribute krw m =
      let n = count_without_coin m in
      if krw ≤? lit 0
      then m
      else elim n [ zero ↦ m | suc k ↦ update_all (fund (krw ⊘ lit (suc k))) m ]

  -- `none` is the `std::invalid_argument`.
  pub construct : AccountConfig D → Account D → List String → Option (AccountManager D)
  construct cfg account [] = none
  construct cfg account (k ∷ ks) = some (record {
    budgets = distribute account.krw_free (
        place_all (load_position cfg.init_dust_threshold_krw) account.positions
          (open_budgets (k ∷ ks) []));
    next_token_id = 1;
    stats = no_stats;
  })

  unfoldable pub clear_coin : MarketBudget D → MarketBudget D
  clear_coin b = record b { coin_balance = lit 0; avg_entry_price = lit 0 }

  -- `flat_markets`
  unfoldable pub flat_markets : D → Dict (MarketBudget D) → List String
  flat_markets epsilon [] = []
  flat_markets epsilon ((k, b) ∷ m) =
      let rest = flat_markets epsilon m in if b.coin_balance <? epsilon then k ∷ rest else rest

  unfoldable pub refund : D → MarketBudget D → MarketBudget D
  refund per_market b = record b { available_krw = per_market; reserved_krw = lit 0 }

  unfoldable pub refund_all : D → List String → Dict (MarketBudget D) → Dict (MarketBudget D)
  unfolding refund
  refund_all per_market [] m = m
  refund_all per_market (k ∷ ks) m =
      refund_all per_market ks
        (elim (lookup k m) [ none ↦ m | some b ↦ replace k (refund per_market b) m ])

  -- steps 1 and 2 of `rebuildFromAccount`
  unfoldable pub reload :
      AccountConfig D → Account D → Dict (MarketBudget D) → Dict (MarketBudget D)
  unfolding clear_coin
  reload cfg account m =
      place_all (reload_position cfg.init_dust_threshold_krw) account.positions
        (update_all clear_coin m)

  unfoldable pub refund_flat : D → List String → Dict (MarketBudget D) → Dict (MarketBudget D)
  refund_flat krw [] m = m
  refund_flat krw (k ∷ ks) m = refund_all (krw ⊘ lit (length (k ∷ ks))) (k ∷ ks) m

  unfoldable pub rebuild_from_account :
      AccountConfig D → Account D → AccountManager D → AccountManager D
  unfolding refund_flat reload
  rebuild_from_account cfg account m =
      let loaded = reload cfg account m.budgets in
      record m {
        budgets = refund_flat account.krw_free (flat_markets cfg.coin_epsilon loaded) loaded;
      }
