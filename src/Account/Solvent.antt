-- ===== src/Account/Solvent.antt =====
-- The free and the reserved KRW of each market, before and after the calls of `AccountManager` for
-- orders and fills.
use coin_bot.Base.{String, Option, none, some, ◌≡◌, refl, arith, inl, inr, Option-cases, Bool-cases}
use coin_bot.Base.Dict.{lookup, Each, Each-replace, Each-lookup}
use coin_bot.Double.{Double, ◌⊖◌, ◌<?◌, ◌≤?◌, lit}
use coin_bot.Double.Exact.{
  IsExact, ◌≼◌, IsNonneg, exact, add_parts, sub_parts, lt_parts, le_parts, zero_parts,
}
use coin_bot.Domain.Account.{AccountConfig}
use coin_bot.Account.{
  AccountManager, MarketBudget, reserve, reserve_from, give_back, release_internal,
  release_without_token, release, destroy, bought, settle_buy, settle_sell, finalize_fill_buy,
  close_token, checked_buy, finalize_fill_sell, finalize_sell_order, finalize_order, sweep,
  sweep_in, should_clear_coin,
}
use coin_bot.Account.Token.{ReservationToken, remaining}

module _ {D : Type 0} ⦃d : Double D⦄ ⦃x : IsExact D⦄ where
  pub record IsFunded (b : MarketBudget D) : Type 0 where
    pub available : IsNonneg b.available_krw
    pub reserved : IsNonneg b.reserved_krw

  abbrev pub IsSolvent : AccountManager D → Type 0
  IsSolvent m = Each IsFunded m.budgets

  -- What a token claims is between nothing and the whole of its amount.
  pub record IsClaim (t : ReservationToken D) : Type 0 where
    pub used : IsNonneg t.consumed
    pub within : t.consumed ≼ t.amount

  remaining_nonneg : (t : ReservationToken D) → IsClaim t → IsNonneg (remaining t)
  unfolding remaining
  remaining_nonneg t c = omega (exact, c.within)

  give_back-IsFunded :
      (b : MarketBudget D) (a : D) → IsNonneg a → IsFunded b → IsFunded (give_back b a)
  unfolding give_back
  give_back-IsFunded b a p f = ground (
    arith,
    add_parts b.available_krw a,
    sub_parts b.reserved_krw a,
    lt_parts (b.reserved_krw ⊖ a) (lit 0),
    zero_parts a,
    f.available,
    f.reserved,
  )

  bought-IsFunded : (b : MarketBudget D) (e c p : D) → IsFunded b → IsFunded (bought b e c p)
  unfolding bought
  bought-IsFunded b e c p f = ground (
    arith,
    sub_parts b.reserved_krw e,
    lt_parts (b.reserved_krw ⊖ e) (lit 0),
    zero_parts e,
    f.available,
    f.reserved,
  )

  sweep-IsFunded :
      (cfg : AccountConfig D) (b : MarketBudget D) → IsFunded b → IsFunded (sweep cfg b)
  unfolding sweep
  sweep-IsFunded cfg b f = ground (
    arith,
    add_parts b.available_krw b.reserved_krw,
    zero_parts b.reserved_krw,
    f.available,
    f.reserved,
  )

  release_internal-IsSolvent :
      (m : AccountManager D) (k : String) (a : D)
      → IsNonneg a
      → IsSolvent m
      → IsSolvent (release_internal m k a)
  unfolding release_internal
  release_internal-IsSolvent m k a p s = elim (Option-cases (lookup k m.budgets)) [
    | inl e ↦ rw (e, release_internal) s
    | inr (b, e) ↦
        rw (e, release_internal)
          (Each-replace IsFunded k _ m.budgets s
            (give_back-IsFunded b a p (Each-lookup IsFunded k m.budgets b s e)))
  ]

  release_without_token-IsSolvent :
      (m : AccountManager D) (k : String) (a : D)
      → IsNonneg a
      → IsSolvent m
      → IsSolvent (release_without_token m k a)
  unfolding release_without_token
  release_without_token-IsSolvent m k a p s = release_internal-IsSolvent m k a p s

  -- A reservation takes no more than there is.
  pub reserve-IsSolvent :
      (m : AccountManager D) (k : String) (a : D) → IsSolvent m → IsSolvent (reserve m k a).1
  unfolding reserve
  reserve-IsSolvent m k a s = from (lookup k m.budgets) refl
    where
      from :
          (o : Option (MarketBudget D))
          → lookup k m.budgets ≡ o
          → IsSolvent (reserve_from m k a o).1
      from none e = s
      from (some b) e =
          let f = Each-lookup IsFunded k m.budgets b s e in
          elim (Bool-cases (a ≤? lit 0)) [
            | inl bad ↦ rw bad s
            | inr good ↦ elim (Bool-cases (b.available_krw <? a)) [
              | inl short ↦ rw (good, short) s
              | inr enough ↦
                  rw (good, enough)
                    (Each-replace IsFunded k _ m.budgets s (record {
                      available =
                          ground (arith, sub_parts b.available_krw a, lt_parts b.available_krw a);
                      reserved = ground (
                        arith,
                        add_parts b.reserved_krw a,
                        le_parts a (lit 0),
                        zero_parts a,
                        f.reserved,
                      );
                    }))
            ]
          ]

  pub release-IsSolvent :
      (m : AccountManager D) (t : ReservationToken D)
      → IsClaim t
      → IsSolvent m
      → IsSolvent (release m t).1
  unfolding release
  release-IsSolvent m t c s =
      ground
        (arith, release_without_token-IsSolvent m t.market (remaining t) (remaining_nonneg t c) s)

  pub destroy-IsSolvent :
      (m : AccountManager D) (t : ReservationToken D)
      → IsClaim t
      → IsSolvent m
      → IsSolvent (destroy t m)
  unfolding destroy remaining
  destroy-IsSolvent m t c s = ground (
    arith,
    release_without_token-IsSolvent m t.market (t.amount ⊖ t.consumed) (remaining_nonneg t c) s,
  )

  settle_buy-IsSolvent :
      (m : AccountManager D) (t : ReservationToken D) (e c p : D)
      → IsSolvent m
      → IsSolvent (settle_buy m t e c p).1
  unfolding settle_buy
  settle_buy-IsSolvent m t e c p s = elim (Option-cases (lookup t.market m.budgets)) [
    | inl q ↦ rw (q, settle_buy) s
    | inr (b, q) ↦
        rw (q, settle_buy)
          (Each-replace IsFunded t.market _ m.budgets s
            (bought-IsFunded b e c p (Each-lookup IsFunded t.market m.budgets b s q)))
  ]

  pub finalize_fill_buy-IsSolvent :
      (m : AccountManager D) (t : ReservationToken D) (e c p : D)
      → IsSolvent m
      → IsSolvent (finalize_fill_buy m t e c p).1
  unfolding finalize_fill_buy checked_buy
  finalize_fill_buy-IsSolvent m t e c p s =
      ground (arith, settle_buy-IsSolvent m t e c p s, settle_buy-IsSolvent m t (remaining t) c p s)

  settle_sell-IsSolvent :
      (m : AccountManager D) (k : String) (sold got : D)
      → IsNonneg got
      → IsSolvent m
      → IsSolvent (settle_sell m k sold got)
  unfolding settle_sell
  settle_sell-IsSolvent m k sold got p s = elim (Option-cases (lookup k m.budgets)) [
    | inl q ↦ rw (q, settle_sell) s
    | inr (b, q) ↦
        rw (q, settle_sell)
          (let f = Each-lookup IsFunded k m.budgets b s q in
            Each-replace IsFunded k _ m.budgets s (record {
              available = ground (arith, add_parts b.available_krw got, f.available);
              reserved = f.reserved;
            }))
  ]

  pub finalize_fill_sell-IsSolvent :
      (m : AccountManager D) (k : String) (sold got : D)
      → IsSolvent m
      → IsSolvent (finalize_fill_sell m k sold got)
  unfolding finalize_fill_sell
  finalize_fill_sell-IsSolvent m k sold got s =
      ground (arith, settle_sell-IsSolvent m k sold got, lt_parts got (lit 0), zero_parts got)

  pub finalize_sell_order-IsSolvent :
      (cfg : AccountConfig D) (m : AccountManager D) (k : String) (mark : Option D)
      → IsSolvent m
      → IsSolvent (finalize_sell_order cfg m k mark)
  unfolding finalize_sell_order
  finalize_sell_order-IsSolvent cfg m k mark s = elim (Option-cases (lookup k m.budgets)) [
    | inl q ↦ rw (q, finalize_sell_order) s
    | inr (b, q) ↦ elim (Bool-cases (should_clear_coin cfg b mark)) [
      | inl on ↦
          rw (q, finalize_sell_order, on)
            (Each-replace IsFunded k _ m.budgets s (
              let f = Each-lookup IsFunded k m.budgets b s q in
              record { available = f.available; reserved = f.reserved }))
      | inr off ↦ rw (q, finalize_sell_order, off) s
    ]
  ]

  sweep_in-IsSolvent :
      (cfg : AccountConfig D) (m : AccountManager D) (k : String)
      → IsSolvent m
      → IsSolvent (sweep_in cfg m k)
  unfolding sweep_in
  sweep_in-IsSolvent cfg m k s = elim (Option-cases (lookup k m.budgets)) [
    | inl q ↦ rw (q, sweep_in) s
    | inr (b, q) ↦
        rw (q, sweep_in)
          (Each-replace IsFunded k _ m.budgets s
            (sweep-IsFunded cfg b (Each-lookup IsFunded k m.budgets b s q)))
  ]

  close_token-IsSolvent :
      (cfg : AccountConfig D) (m : AccountManager D) (t : ReservationToken D)
      → IsClaim t
      → IsSolvent m
      → IsSolvent (close_token cfg m t).1
  unfolding close_token
  close_token-IsSolvent cfg m t c s = elim (Option-cases (lookup t.market m.budgets)) [
    | inl q ↦ rw (q, close_token) s
    | inr (b, q) ↦
        rw (q, close_token)
          (sweep_in-IsSolvent cfg _ t.market (
            ground (
              arith,
              release_internal-IsSolvent m t.market (remaining t) (remaining_nonneg t c) s,
            )))
  ]

  pub finalize_order-IsSolvent :
      (cfg : AccountConfig D) (m : AccountManager D) (t : ReservationToken D)
      → IsClaim t
      → IsSolvent m
      → IsSolvent (finalize_order cfg m t).1
  unfolding finalize_order
  finalize_order-IsSolvent cfg m t c s = ground (arith, close_token-IsSolvent cfg m t c s)
