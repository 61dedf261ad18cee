-- ===== src/Account/Lifecycle.antt =====
-- The life of a buy order in `AccountManager`: `reserve`, fills, `finalizeOrder`.
use coin_bot.Base.{
  subst, ◌+◌, ap, sym, true, some, List, [], ◌∷◌, ◌≡◌, refl, ◌∙◌, arith, inl, inr, Bool-cases, ◌||◌,
}
use coin_bot.Base.Dict.{lookup, lookup-replace_self}
use coin_bot.Double.{Double, ◌⊕◌, ◌⊖◌, ◌<?◌, ◌≤?◌, lit}
use coin_bot.Double.Exact.{
  IsExact, credit, debit, ◌≼◌, IsNonneg, add_parts, sub_parts, lt_parts, le_parts, zero_parts,
  pos→nonneg, not-lt→,
}
use coin_bot.Account.{
  AccountManager, MarketBudget, bought, settle_buy, checked_buy, finalize_fill_buy,
}
use coin_bot.Account.Token.{ReservationToken, remaining, add_consumed}

-- One fill: KRW spent, coins received, price.
pub record Fill (D : Type 0) : Type 0 where
  pub executed_krw : D
  pub received_coin : D
  pub fill_price : D

module _ {D : Type 0} ⦃d : Double D⦄ where
  pub fill_all :
      AccountManager D → ReservationToken D → List (Fill D) → ReservationToken D × AccountManager D
  fill_all m t [] = (t, m)
  fill_all m t (f ∷ fs) =
      let (t', m') = finalize_fill_buy m t f.executed_krw f.received_coin f.fill_price in
      fill_all m' t' fs

module _ {D : Type 0} ⦃d : Double D⦄ ⦃x : IsExact D⦄ where
  -- A live token whose claim lies in its market's reserved KRW.
  pub record IsBacked (t : ReservationToken D) (b : MarketBudget D) : Type 0 where
    pub active : t.active ≡ true
    pub used : IsNonneg t.consumed
    pub within : t.consumed ≼ t.amount
    pub available : IsNonneg b.available_krw
    pub reserved : IsNonneg b.reserved_krw
    pub backed : remaining t ≼ b.reserved_krw

  -- What a fill leaves alone, and the sum that it keeps.
  pub record Settles (t t' : ReservationToken D) (b b' : MarketBudget D) : Type 0 where
    pub market : t'.market ≡ t.market
    pub amount : t'.amount ≡ t.amount
    pub free : b'.available_krw ≡ b.available_krw
    pub sum :
        credit b'.reserved_krw + credit t'.consumed + debit b.reserved_krw + debit t.consumed
        ≡ debit b'.reserved_krw + debit t'.consumed + credit b.reserved_krw + credit t.consumed

  settle-IsBacked :
      (t : ReservationToken D) (b : MarketBudget D) (e c p : D)
      → IsNonneg e
      → e ≼ remaining t
      → IsBacked t b
      → IsBacked (add_consumed t e) (bought b e c p)
  unfolding add_consumed bought remaining
  settle-IsBacked t b e c p pos small h = record {
    active = h.active;
    used = ground (arith, add_parts t.consumed e, h.used, h.within);
    within = ground (arith, lt_parts t.amount (t.consumed ⊕ e));
    available = h.available;
    reserved = ground (arith, lt_parts (b.reserved_krw ⊖ e) (lit 0), zero_parts e);
    backed = ground (
      arith,
      lt_parts (b.reserved_krw ⊖ e) (lit 0),
      zero_parts e,
      sub_parts b.reserved_krw e,
      lt_parts t.amount (t.consumed ⊕ e),
      add_parts t.consumed e,
      sub_parts t.amount t.consumed,
      sub_parts t.amount (t.consumed ⊕ e),
      sub_parts t.amount t.amount,
      h.backed,
    );
  }

  settle-Settles :
      (t : ReservationToken D) (b : MarketBudget D) (e c p : D)
      → e ≼ remaining t
      → IsBacked t b
      → Settles t (add_consumed t e) b (bought b e c p)
  unfolding add_consumed bought remaining
  settle-Settles t b e c p small h = record {
    market = refl;
    amount = refl;
    free = refl;
    sum = ground (
      arith,
      lt_parts (b.reserved_krw ⊖ e) (lit 0),
      zero_parts e,
      sub_parts b.reserved_krw e,
      lt_parts t.amount (t.consumed ⊕ e),
      add_parts t.consumed e,
      sub_parts t.amount t.consumed,
      h.backed,
    );
  }

  abbrev pub Settled :
      ReservationToken D → MarketBudget D → ReservationToken D × AccountManager D → Type 0
  Settled t b (t', m') =
      (b' : MarketBudget D) × (lookup t.market m'.budgets ≡ some b')
      × IsBacked t' b'
      × Settles t t' b b'

  Settles-refl : (t : ReservationToken D) (b : MarketBudget D) → Settles t t b b
  Settles-refl t b = record { market = refl; amount = refl; free = refl; sum = omega arith }

  Settles-trans :
      {t u v : ReservationToken D} {a b c : MarketBudget D}
      → Settles t u a b
      → Settles u v b c
      → Settles t v a c
  Settles-trans p q = record {
    market = q.market ∙ p.market;
    amount = q.amount ∙ p.amount;
    free = q.free ∙ p.free;
    sum = omega (arith, p.sum, q.sum);
  }

  settle_buy-Settled :
      (m : AccountManager D) (t : ReservationToken D) (b : MarketBudget D) (e c p : D)
      → lookup t.market m.budgets ≡ some b
      → IsNonneg e
      → e ≼ remaining t
      → IsBacked t b
      → Settled t b (settle_buy m t e c p)
  unfolding settle_buy
  settle_buy-Settled m t b e c p q pos small h =
      rw (q, settle_buy)
        (
          bought b e c p,
          lookup-replace_self t.market _ b m.budgets q,
          settle-IsBacked t b e c p pos small h,
          settle-Settles t b e c p small h,
        )

  checked_buy-Settled :
      (m : AccountManager D) (t : ReservationToken D) (b : MarketBudget D) (e c p : D)
      → lookup t.market m.budgets ≡ some b
      → IsBacked t b
      → Settled t b (checked_buy m t e c p)
  unfolding checked_buy
  checked_buy-Settled m t b e c p q h =
      let kept : Settled t b (t, m) = (b, q, h, Settles-refl t b) in
      elim (Bool-cases (e ≤? lit 0 || c ≤? lit 0 || p ≤? lit 0)) [
        | inl bad ↦ rw bad kept
        | inr good ↦ elim (Bool-cases (remaining t <? e)) [
          | inl over ↦ elim (Bool-cases (remaining t ≤? lit 0)) [
            | inl spent ↦ rw (good, over, spent) kept
            | inr left ↦
                rw (good, over, left)
                  (settle_buy-Settled m t b (remaining t) c p q (pos→nonneg (remaining t) left)
                    (omega arith) h)
          ]
          | inr fits ↦
              rw (good, fits)
                (settle_buy-Settled m t b e c p q (ground (arith, le_parts e (lit 0), zero_parts e))
                  (not-lt→ (remaining t) e fits) h)
        ]
      ]

  finalize_fill_buy-Settled :
      (m : AccountManager D) (t : ReservationToken D) (b : MarketBudget D) (e c p : D)
      → lookup t.market m.budgets ≡ some b
      → IsBacked t b
      → Settled t b (finalize_fill_buy m t e c p)
  unfolding finalize_fill_buy checked_buy
  finalize_fill_buy-Settled m t b e c p q h =
      let live : finalize_fill_buy m t e c p ≡ checked_buy m t e c p = ground (arith, h.active) in
      subst (Settled t b) (sym live) (checked_buy-Settled m t b e c p q h)

  pub fill_all-Settled :
      (m : AccountManager D) (t : ReservationToken D) (b : MarketBudget D) (fs : List (Fill D))
      → lookup t.market m.budgets ≡ some b
      → IsBacked t b
      → Settled t b (fill_all m t fs)
  unfolding fill_all
  fill_all-Settled m t b [] q h = (b, q, h, Settles-refl t b)
  fill_all-Settled m t b (f ∷ fs) q h =
      let r = finalize_fill_buy m t f.executed_krw f.received_coin f.fill_price in
      let (b', q', h', s') =
        finalize_fill_buy-Settled m t b f.executed_krw f.received_coin f.fill_price q h in
      let (b'', q'', h'', s'') =
        fill_all-Settled r.1 r.0 b' fs (ap (λ k. lookup k r.1.budgets) s'.market ∙ q') h' in
      (
        b'',
        ap (λ k. lookup k (fill_all r.1 r.0 fs).1.budgets) (sym s'.market) ∙ q'',
        h'',
        Settles-trans s' s'',
      )
