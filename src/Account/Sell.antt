-- ===== src/Account/Sell.antt =====
-- Sales in `AccountManager`: `finalizeFillSell` and `finalizeSellOrder`.
use coin_bot.Base.{◌∙◌, sym, refl, String, false, some, List, [], ◌∷◌, All, ◌≡◌, arith, ap}
use coin_bot.Base.Dict.{lookup, replace, lookup-replace_self, replace-replace, replace_same}
use coin_bot.Double.{Double, ◌⊕◌, ◌⊖◌, ◌<?◌, ◌≤?◌, lit}
use coin_bot.Double.Exact.{IsExact, IsNonneg, ◌≼◌, exact, ext, zero_parts}
use coin_bot.Account.{AccountManager, MarketBudget, settle_sell, finalize_fill_sell}

module _ {D : Type 0} ⦃d : Double D⦄ where
  abbrev after_sale : MarketBudget D → D → D → MarketBudget D
  after_sale b sold got = record b {
    coin_balance = b.coin_balance ⊖ sold;
    available_krw = b.available_krw ⊕ got;
  }

  budgets-settle_sell :
      (m : AccountManager D) (k : String) (sold got : D) (b : MarketBudget D)
      → lookup k m.budgets ≡ some b
      → (settle_sell m k sold got).budgets ≡ replace k (after_sale b sold got) m.budgets
  unfolding settle_sell
  budgets-settle_sell m k sold got b q = rw (q, settle_sell)

  budgets-finalize_fill_sell :
      (m : AccountManager D) (k : String) (sold got : D) (b : MarketBudget D)
      → lookup k m.budgets ≡ some b
      → (sold ≤? lit 0) ≡ false
      → (got <? lit 0) ≡ false
      → (finalize_fill_sell m k sold got).budgets ≡ replace k (after_sale b sold got) m.budgets
  unfolding finalize_fill_sell
  budgets-finalize_fill_sell m k sold got b q p r =
      ground (arith, budgets-settle_sell m k sold got b q)

  -- What each fill of a sale sold, and what it got.
  abbrev pub sell_each : List (D × D) → String → AccountManager D → AccountManager D
  sell_each [] k m = m
  sell_each ((sold, got) ∷ fs) k m = sell_each fs k (finalize_fill_sell m k sold got)

  abbrev pub coin_of : List (D × D) → D
  coin_of [] = lit 0
  coin_of ((sold, got) ∷ fs) = sold ⊕ coin_of fs

  abbrev pub krw_of : List (D × D) → D
  krw_of [] = lit 0
  krw_of ((sold, got) ∷ fs) = got ⊕ krw_of fs

  -- Some coin was sold, and what it got is not negative.
  abbrev pub IsSale : D × D → Type 0
  IsSale (sold, got) = ((sold ≤? lit 0) ≡ false) × ((got <? lit 0) ≡ false)

module _ {D : Type 0} ⦃d : Double D⦄ ⦃x : IsExact D⦄ where
  after_nothing : (b : MarketBudget D) → after_sale b (lit 0) (lit 0) ≡ b
  after_nothing b =
      rw
        (
          ext (b.coin_balance ⊖ lit 0) b.coin_balance (omega (exact, zero_parts b.coin_balance)),
          ext (b.available_krw ⊕ lit 0) b.available_krw (omega (exact, zero_parts b.available_krw)),
        )
        refl

  after_sale_twice :
      (b : MarketBudget D) (sold sold' got got' : D)
      → after_sale (after_sale b sold got) sold' got' ≡ after_sale b (sold ⊕ sold') (got ⊕ got')
  after_sale_twice b sold sold' got got' = rw (
    ext (b.coin_balance ⊖ sold ⊖ sold') (b.coin_balance ⊖ (sold ⊕ sold')) (omega exact),
    ext (b.available_krw ⊕ got ⊕ got') (b.available_krw ⊕ (got ⊕ got')) (omega exact),
  )

  sell_each-after_sale :
      (fs : List (D × D)) (k : String) (m : AccountManager D) (b : MarketBudget D)
      → lookup k m.budgets ≡ some b
      → All IsSale fs
      → (sell_each fs k m).budgets ≡ replace k (after_sale b (coin_of fs) (krw_of fs)) m.budgets
  sell_each-after_sale [] k m b q h =
      sym (replace_same k b m.budgets q) ∙ ap (λ c. replace k c m.budgets) (sym (after_nothing b))
  sell_each-after_sale ((sold, got) ∷ fs) k m b q ((p, r), h) =
      let first = budgets-finalize_fill_sell m k sold got b q p r in
      let c = after_sale b sold got in
      let last = after_sale c (coin_of fs) (krw_of fs) in
      let found : lookup k (finalize_fill_sell m k sold got).budgets ≡ some c =
        ap (lookup k) first ∙ lookup-replace_self k c b m.budgets q in
      sell_each-after_sale fs k (finalize_fill_sell m k sold got) c found h
      ∙ ap (replace k last) first
      ∙ replace-replace k last c m.budgets
      ∙ ap (λ e. replace k e m.budgets) (after_sale_twice b sold (coin_of fs) got (krw_of fs))

  -- The fills of a sale, each of some coin and for no negative amount, and together of no more coin
  -- than the market has, leave the market with its coin less all that they sold, which is not
  -- negative, and its free KRW with all that they got. Nothing else of the market and no other market
  -- changes.
  pub sale_adds_up :
      (fs : List (D × D)) (k : String) (m : AccountManager D) (b : MarketBudget D)
      → lookup k m.budgets ≡ some b
      → All IsSale fs
      → coin_of fs ≼ b.coin_balance
      → let b' = record b {
        coin_balance = b.coin_balance ⊖ coin_of fs;
        available_krw = b.available_krw ⊕ krw_of fs;
      } in
        ((sell_each fs k m).budgets ≡ replace k b' m.budgets) × IsNonneg b'.coin_balance
  sale_adds_up fs k m b q h within = (sell_each-after_sale fs k m b q h, omega (exact, within))
