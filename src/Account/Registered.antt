-- ===== src/Account/Registered.antt =====
-- The markets that have a budget, before and after the calls of `AccountManager` for orders and fills.
use coin_bot.Base.{String, Option, ◌≡◌, arith, is_some, Option-cases, inl, inr, if◌then◌else◌}
use coin_bot.Base.Dict.{Dict, lookup, replace, lookup-replace}
use coin_bot.Double.{Double, lit, ◌<?◌, ◌⊖◌, ◌⊕◌}
use coin_bot.Domain.Account.{AccountConfig}
use coin_bot.Account.{
  AccountManager, MarketBudget, reserve, reserve_from, reserve_failed, reserved, release, destroy,
  release_without_token, finalize_fill_buy, checked_buy, settle_buy, bought, finalize_fill_sell,
  settle_sell, release_internal, finalize_sell_order, finalize_order, close_token, sweep_in, sweep,
  give_back,
}
use coin_bot.Account.Token.{ReservationToken, remaining}

module _ {D : Type 0} ⦃d : Double D⦄ where
  is_some-replace :
      (k j : String) (b : MarketBudget D) (m : Dict (MarketBudget D))
      → is_some (lookup j (replace k b m)) ≡ is_some (lookup j m)
  is_some-replace k j b m = ground (arith, lookup-replace k j b m)

  sweep_in-registered :
      (cfg : AccountConfig D) (m : AccountManager D) (k j : String)
      → is_some (lookup j (sweep_in cfg m k).budgets) ≡ is_some (lookup j m.budgets)
  unfolding sweep_in sweep
  sweep_in-registered cfg m k j = elim (Option-cases (lookup k m.budgets)) [
    | inl q ↦ ground arith
    | inr (b, q) ↦ ground (arith, is_some-replace k j (sweep cfg b) m.budgets)
  ]

  release_internal-registered :
      (m : AccountManager D) (k : String) (a : D) (j : String)
      → is_some (lookup j (release_internal m k a).budgets) ≡ is_some (lookup j m.budgets)
  unfolding release_internal give_back
  release_internal-registered m k a j = elim (Option-cases (lookup k m.budgets)) [
    | inl q ↦ ground arith
    | inr (b, q) ↦ ground (arith, is_some-replace k j (give_back b a) m.budgets)
  ]

  pub finalize_order-registered :
      (cfg : AccountConfig D) (m : AccountManager D) (t : ReservationToken D) (j : String)
      → is_some (lookup j (finalize_order cfg m t).1.budgets) ≡ is_some (lookup j m.budgets)
  unfolding finalize_order close_token
  finalize_order-registered cfg m t j =
      let m' = if lit 0 <? remaining t then release_internal m t.market (remaining t) else m in
      ground (
        arith,
        sweep_in-registered cfg m' t.market j,
        release_internal-registered m t.market (remaining t) j,
      )

  pub finalize_sell_order-registered :
      (cfg : AccountConfig D) (m : AccountManager D) (k : String) (mark : Option D) (j : String)
      → is_some (lookup j (finalize_sell_order cfg m k mark).budgets) ≡ is_some (lookup j m.budgets)
  unfolding finalize_sell_order
  finalize_sell_order-registered cfg m k mark j = elim (Option-cases (lookup k m.budgets)) [
    | inl q ↦ ground arith
    | inr (b, q) ↦
        let c = record b {
          coin_balance = lit 0;
          avg_entry_price = lit 0;
          realized_pnl = b.available_krw ⊖ b.initial_capital;
        } in
        ground (arith, is_some-replace k j c m.budgets)
  ]

  pub reserve-registered :
      (m : AccountManager D) (k : String) (a : D) (j : String)
      → is_some (lookup j (reserve m k a).1.budgets) ≡ is_some (lookup j m.budgets)
  unfolding reserve reserve_from reserve_failed reserved
  reserve-registered m k a j = elim (Option-cases (lookup k m.budgets)) [
    | inl q ↦ ground arith
    | inr (b, q) ↦
        let b' = record b {
          available_krw = b.available_krw ⊖ a;
          reserved_krw = b.reserved_krw ⊕ a;
        } in
        ground (arith, is_some-replace k j b' m.budgets)
  ]

  pub release-registered :
      (m : AccountManager D) (t : ReservationToken D) (j : String)
      → is_some (lookup j (release m t).1.budgets) ≡ is_some (lookup j m.budgets)
  unfolding release release_without_token
  release-registered m t j = ground (arith, release_internal-registered m t.market (remaining t) j)

  pub destroy-registered :
      (m : AccountManager D) (t : ReservationToken D) (j : String)
      → is_some (lookup j (destroy t m).budgets) ≡ is_some (lookup j m.budgets)
  unfolding destroy release_without_token
  destroy-registered m t j =
      ground (arith, release_internal-registered m t.market (t.amount ⊖ t.consumed) j)

  settle_buy-registered :
      (m : AccountManager D) (t : ReservationToken D) (e c p : D) (j : String)
      → is_some (lookup j (settle_buy m t e c p).1.budgets) ≡ is_some (lookup j m.budgets)
  unfolding settle_buy
  settle_buy-registered m t e c p j = elim (Option-cases (lookup t.market m.budgets)) [
    | inl q ↦ ground arith
    | inr (b, q) ↦ ground (arith, is_some-replace t.market j (bought b e c p) m.budgets)
  ]

  pub finalize_fill_buy-registered :
      (m : AccountManager D) (t : ReservationToken D) (e c p : D) (j : String)
      → is_some (lookup j (finalize_fill_buy m t e c p).1.budgets) ≡ is_some (lookup j m.budgets)
  unfolding finalize_fill_buy checked_buy
  finalize_fill_buy-registered m t e c p j =
      ground
        (arith, settle_buy-registered m t e c p j, settle_buy-registered m t (remaining t) c p j)

  pub finalize_fill_sell-registered :
      (m : AccountManager D) (k : String) (sold got : D) (j : String)
      → is_some (lookup j (finalize_fill_sell m k sold got).budgets) ≡ is_some (lookup j m.budgets)
  unfolding finalize_fill_sell settle_sell
  finalize_fill_sell-registered m k sold got j = elim (Option-cases (lookup k m.budgets)) [
    | inl q ↦ ground arith
    | inr (b, q) ↦
        let b' = record b {
          coin_balance = b.coin_balance ⊖ sold;
          available_krw = b.available_krw ⊕ got;
        } in
        ground (arith, is_some-replace k j b' m.budgets)
  ]
