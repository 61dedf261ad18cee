-- ===== src/Account.antt =====
-- trading/allocation/AccountManager.h and .cpp: the KRW and the coins of each market, and the tokens
-- that reserve KRW for an order. Each method runs under the manager's lock, so it is one step.
pub mod Token
pub mod Build
pub mod Solvent
pub mod Rebuild
pub mod Lifecycle
pub mod Conservation
pub mod Reserve
pub mod Refund
pub mod Registered
pub mod Sell
mod Tests
use coin_bot.Base.{
  ℕ, ◌+◌, ◌%◌, ◌^◌, String, Bool, true, false, Option, none, some, if◌then◌else◌, ◌&&◌, ◌||◌, not,
}
use coin_bot.Base.Dict.{Dict, lookup, replace}
use coin_bot.Double.{Double, ◌⊕◌, ◌⊖◌, ◌⊗◌, ◌⊘◌, ◌<?◌, ◌≤?◌, ◌=?◌, lit}
use coin_bot.Domain.Account.{AccountConfig}
use Token.{ReservationToken, remaining, add_consumed, deactivate}

pub record MarketBudget (D : Type 0) : Type 0 where
  pub market : String
  pub available_krw : D
  pub reserved_krw : D
  pub coin_balance : D
  pub avg_entry_price : D
  pub initial_capital : D
  pub realized_pnl : D

pub record Stats : Type 0 where
  pub total_reserves : ℕ
  pub total_releases : ℕ
  pub total_fills_buy : ℕ
  pub total_fills_sell : ℕ
  pub reserve_failures : ℕ

pub record AccountManager (D : Type 0) : Type 0 where
  pub budgets : Dict (MarketBudget D)
  pub next_token_id : ℕ
  pub stats : Stats

-- `fetch_add(1)` on an `std::atomic<uint64_t>`
abbrev pub fetch_add : ℕ → ℕ
fetch_add n = (n + 1) % 2 ^ 64

module _ {D : Type 0} ⦃d : Double D⦄ where
  pub get_current_equity : MarketBudget D → D → D
  get_current_equity b price = b.available_krw ⊕ b.reserved_krw ⊕ b.coin_balance ⊗ price

  pub get_roi : MarketBudget D → D → D
  unfolding get_current_equity
  get_roi b price =
      if b.initial_capital =? lit 0
      then lit 0
      else (get_current_equity b price ⊖ b.initial_capital) ⊘ b.initial_capital ⊗ lit 100

  pub get_realized_roi : MarketBudget D → D
  get_realized_roi b =
      if b.initial_capital =? lit 0 then lit 0 else b.realized_pnl ⊘ b.initial_capital ⊗ lit 100

  unfoldable pub get_budget : String → AccountManager D → Option (MarketBudget D)
  get_budget market m = lookup market m.budgets

  -- What is written back through the iterator into `budgets_`.
  abbrev pub put : AccountManager D → String → MarketBudget D → AccountManager D
  put m market b = record m { budgets = replace market b m.budgets }

  reserve_failed : AccountManager D → AccountManager D
  reserve_failed m = record m {
    stats = record (m.stats) { reserve_failures = fetch_add m.stats.reserve_failures };
  }

  reserved : AccountManager D → String → D → MarketBudget D → AccountManager D
  reserved m market amount b = record m {
    budgets =
        replace market
          (record b {
            available_krw = b.available_krw ⊖ amount;
            reserved_krw = b.reserved_krw ⊕ amount;
          })
          m.budgets;
    next_token_id = fetch_add m.next_token_id;
    stats = record (m.stats) { total_reserves = fetch_add m.stats.total_reserves };
  }

  reserve_from :
      AccountManager D
      → String
      → D
      → Option (MarketBudget D)
      → Option (ReservationToken D) × AccountManager D
  reserve_from m market amount none = (none, reserve_failed m)
  reserve_from m market amount (some b) =
      if amount ≤? lit 0
      then (none, reserve_failed m)
      else if b.available_krw <? amount
      then (none, reserve_failed m)
      else (some (Token.create market amount m.next_token_id), reserved m market amount b)

  -- `none` is `std::nullopt`.
  pub reserve : AccountManager D → String → D → Option (ReservationToken D) × AccountManager D
  unfolding reserve_from reserve_failed reserved
  reserve m market amount = reserve_from m market amount (lookup market m.budgets)

  give_back : MarketBudget D → D → MarketBudget D
  give_back b amount =
      let left = b.reserved_krw ⊖ amount in
      record b {
        reserved_krw = if left <? lit 0 then lit 0 else left;
        available_krw = b.available_krw ⊕ amount;
      }

  -- `releaseInternal`: the caller holds the lock.
  pub release_internal : AccountManager D → String → D → AccountManager D
  unfolding give_back
  release_internal m market amount = elim (lookup market m.budgets) [
    | none ↦ m
    | some b ↦ put m market (give_back b amount)
  ]

  -- Nothing that it calls throws, so the handler is not reached.
  pub release_without_token : AccountManager D → String → D → AccountManager D
  unfolding release_internal
  release_without_token m market amount =
      let m' = release_internal m market amount in
      record m' { stats = record (m'.stats) { total_releases = fetch_add m'.stats.total_releases } }

  -- `~ReservationToken`
  pub destroy : ReservationToken D → AccountManager D → AccountManager D
  unfolding release_without_token
  destroy t m =
      if t.active && t.has_manager
      then release_without_token m t.market (t.amount ⊖ t.consumed)
      else m

  -- The token comes back, as the caller's object keeps it.
  pub release : AccountManager D → ReservationToken D → ReservationToken D × AccountManager D
  unfolding release_without_token
  release m t =
      if not t.active
      then (t, m)
      else (deactivate t, release_without_token m t.market (remaining t))

  bought : MarketBudget D → D → D → D → MarketBudget D
  bought b executed_krw received_coin fill_price =
      let left = b.reserved_krw ⊖ executed_krw in
      let old_total = b.coin_balance ⊗ b.avg_entry_price in
      let new_total = received_coin ⊗ fill_price in
      let new_balance = b.coin_balance ⊕ received_coin in
      record b {
        reserved_krw = if left <? lit 0 then lit 0 else left;
        avg_entry_price =
            if lit 0 <? new_balance
            then (old_total ⊕ new_total) ⊘ new_balance
            else b.avg_entry_price;
        coin_balance = new_balance;
      }

  settle_buy :
      AccountManager D → ReservationToken D → D → D → D → ReservationToken D × AccountManager D
  unfolding bought
  settle_buy m t executed_krw received_coin fill_price = elim (lookup t.market m.budgets) [
    | none ↦ (t, m)
    | some b ↦ (
      add_consumed t executed_krw,
      record m {
        budgets = replace t.market (bought b executed_krw received_coin fill_price) m.budgets;
        stats = record (m.stats) { total_fills_buy = fetch_add m.stats.total_fills_buy };
      },
    )
  ]

  -- `finalizeFillBuy` after its test of the token.
  checked_buy :
      AccountManager D → ReservationToken D → D → D → D → ReservationToken D × AccountManager D
  checked_buy m t executed_krw received_coin fill_price =
      if executed_krw ≤? lit 0 || received_coin ≤? lit 0 || fill_price ≤? lit 0
      then (t, m)
      else if remaining t <? executed_krw
      then (if remaining t ≤? lit 0
          then (t, m)
          else settle_buy m t (remaining t) received_coin fill_price)
      else settle_buy m t executed_krw received_coin fill_price

  pub finalize_fill_buy :
      AccountManager D → ReservationToken D → D → D → D → ReservationToken D × AccountManager D
  unfolding settle_buy checked_buy
  finalize_fill_buy m t executed_krw received_coin fill_price =
      if not t.active then (t, m) else checked_buy m t executed_krw received_coin fill_price

  settle_sell : AccountManager D → String → D → D → AccountManager D
  settle_sell m market sold_coin received_krw = elim (lookup market m.budgets) [
    | none ↦ m
    | some b ↦ record m {
      budgets =
          replace market
            (record b {
              coin_balance = b.coin_balance ⊖ sold_coin;
              available_krw = b.available_krw ⊕ received_krw;
            })
            m.budgets;
      stats = record (m.stats) { total_fills_sell = fetch_add m.stats.total_fills_sell };
    }
  ]

  pub finalize_fill_sell : AccountManager D → String → D → D → AccountManager D
  unfolding settle_sell
  finalize_fill_sell m market sold_coin received_krw =
      if sold_coin ≤? lit 0 || received_krw <? lit 0
      then m
      else settle_sell m market sold_coin received_krw

  is_value_dust : AccountConfig D → D → Option D → Bool
  is_value_dust cfg balance none = false
  is_value_dust cfg balance (some price) =
      lit 0 <? price && (balance ⊗ price <? cfg.init_dust_threshold_krw)

  -- `should_clear_coin`
  pub should_clear_coin : AccountConfig D → MarketBudget D → Option D → Bool
  unfolding is_value_dust
  should_clear_coin cfg b mark_price =
      b.coin_balance <? cfg.coin_epsilon || is_value_dust cfg b.coin_balance mark_price

  pub finalize_sell_order :
      AccountConfig D → AccountManager D → String → Option D → AccountManager D
  finalize_sell_order cfg m market mark_price = elim (lookup market m.budgets) [
    | none ↦ m
    | some b ↦
        if not (should_clear_coin cfg b mark_price)
        then m
        else put m market (record b {
          coin_balance = lit 0;
          avg_entry_price = lit 0;
          realized_pnl = b.available_krw ⊖ b.initial_capital;
        })
  ]

  sweep : AccountConfig D → MarketBudget D → MarketBudget D
  sweep cfg b =
      if lit 0 <? b.reserved_krw && b.reserved_krw <? cfg.krw_dust_threshold
      then record b { available_krw = b.available_krw ⊕ b.reserved_krw; reserved_krw = lit 0 }
      else b

  sweep_in : AccountConfig D → AccountManager D → String → AccountManager D
  unfolding sweep
  sweep_in cfg m market = elim (lookup market m.budgets) [
    | none ↦ m
    | some b ↦ put m market (sweep cfg b)
  ]

  pub close_token :
      AccountConfig D
      → AccountManager D
      → ReservationToken D
      → ReservationToken D × AccountManager D
  unfolding release_internal sweep_in
  close_token cfg m t = elim (lookup t.market m.budgets) [
    | none ↦ (deactivate t, m)
    | some b ↦ (
      deactivate t,
      sweep_in cfg (if lit 0 <? remaining t then release_internal m t.market (remaining t) else m)
          t.market,
    )
  ]

  pub finalize_order :
      AccountConfig D
      → AccountManager D
      → ReservationToken D
      → ReservationToken D × AccountManager D
  unfolding close_token
  finalize_order cfg m t = if not t.active then (t, m) else close_token cfg m t
