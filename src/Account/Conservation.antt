-- ===== src/Account/Conservation.antt =====
-- The KRW of a market over the life of a buy order: `reserve`, `finalizeFillBuy`, `finalizeOrder`, `release`.
use coin_bot.Base.{
  ℕ, String, true, false, some, List, ◌≡◌, refl, ◌∙◌, sym, ap, subst, arith, inl, inr, Bool-cases,
  if◌then◌else◌, ◌&&◌,
}
use coin_bot.Base.Dict.{lookup, replace, lookup-replace_self, replace-replace, replace_same}
use coin_bot.Double.{Double, ◌⊕◌, ◌⊖◌, ◌<?◌, ◌≤?◌, lit}
use coin_bot.Double.Exact.{
  IsExact, credit, debit, ◌≼◌, IsNonneg, exact, add_parts, sub_parts, ext, zero_parts, pos→nonneg,
  not-lt→, add-sub, sub-add, not-neg, sub-zero,
}
use coin_bot.Domain.Account.{AccountConfig}
use coin_bot.Account.{
  AccountManager, MarketBudget, reserve, give_back, release_internal, release_without_token,
  release, finalize_order, close_token, sweep, sweep_in,
}
use coin_bot.Account.Token.{ReservationToken, create, remaining}
use coin_bot.Account.Solvent.{IsFunded}
use coin_bot.Account.Reserve.{close_token-inactive}
use coin_bot.Account.Lifecycle.{Fill, fill_all, IsBacked, fill_all-Settled}

module _ {D : Type 0} ⦃d : Double D⦄ ⦃x : IsExact D⦄ where
  -- The KRW of a budget, free and reserved.
  abbrev pub krw : MarketBudget D → D
  krw b = b.available_krw ⊕ b.reserved_krw

  krw-give_back : (b : MarketBudget D) (a : D) → a ≼ b.reserved_krw → krw (give_back b a) ≡ krw b
  unfolding give_back
  krw-give_back b a h =
      let left = b.reserved_krw ⊖ a in
      rw (not-neg left (omega (arith, sub_parts b.reserved_krw a)))
        (ext ((b.available_krw ⊕ a) ⊕ left) (krw b) (omega exact))

  krw-sweep : (cfg : AccountConfig D) (b : MarketBudget D) → krw (sweep cfg b) ≡ krw b
  unfolding sweep
  krw-sweep cfg b =
      elim (Bool-cases (lit 0 <? b.reserved_krw && b.reserved_krw <? cfg.krw_dust_threshold)) [
        | inl dust ↦ rw dust (
            ext (krw b ⊕ lit 0) (krw b)
              (omega (arith, add_parts (krw b) (lit 0), zero_parts (krw b))))
        | inr kept ↦ rw kept
      ]

  -- The budget that `finalizeOrder` leaves.
  closed : AccountConfig D → ReservationToken D → MarketBudget D → MarketBudget D
  unfolding sweep give_back
  closed cfg t b = sweep cfg (if lit 0 <? remaining t then give_back b (remaining t) else b)

  krw-closed :
      (cfg : AccountConfig D) (t : ReservationToken D) (b : MarketBudget D)
      → IsBacked t b
      → krw (closed cfg t b) ≡ krw b
  unfolding closed
  krw-closed cfg t b h = elim (Bool-cases (lit 0 <? remaining t)) [
    | inl some_left ↦
        rw some_left
          (krw-sweep cfg (give_back b (remaining t)) ∙ krw-give_back b (remaining t) h.backed)
    | inr spent ↦ rw spent (krw-sweep cfg b)
  ]

  lookup-sweep_in :
      (cfg : AccountConfig D) (m : AccountManager D) (k : String) (b : MarketBudget D)
      → lookup k m.budgets ≡ some b
      → lookup k (sweep_in cfg m k).budgets ≡ some (sweep cfg b)
  unfolding sweep_in
  lookup-sweep_in cfg m k b q = rw (q, sweep_in) (lookup-replace_self k (sweep cfg b) b m.budgets q)

  lookup-release_internal :
      (m : AccountManager D) (k : String) (a : D) (b : MarketBudget D)
      → lookup k m.budgets ≡ some b
      → lookup k (release_internal m k a).budgets ≡ some (give_back b a)
  unfolding release_internal
  lookup-release_internal m k a b q =
      rw (q, release_internal) (lookup-replace_self k (give_back b a) b m.budgets q)

  lookup-close_token :
      (cfg : AccountConfig D) (m : AccountManager D) (t : ReservationToken D) (b : MarketBudget D)
      → lookup t.market m.budgets ≡ some b
      → lookup t.market (close_token cfg m t).1.budgets ≡ some (closed cfg t b)
  unfolding close_token closed
  lookup-close_token cfg m t b q =
      rw (q, close_token)
        (elim (Bool-cases (lit 0 <? remaining t)) [
          | inl some_left ↦ rw some_left (
              lookup-sweep_in cfg (release_internal m t.market (remaining t)) t.market
                (give_back b (remaining t)) (lookup-release_internal m t.market (remaining t) b q))
          | inr spent ↦ rw spent (lookup-sweep_in cfg m t.market b q)
        ])

  -- The budget after a reservation.
  pub held : MarketBudget D → D → MarketBudget D
  held b a = record b { available_krw = b.available_krw ⊖ a; reserved_krw = b.reserved_krw ⊕ a }

  pub reserve_success :
      (m : AccountManager D) (k : String) (a : D) (b : MarketBudget D) (t : ReservationToken D)
      (m' : AccountManager D)
      → lookup k m.budgets ≡ some b
      → reserve m k a ≡ (some t, m')
      → (t ≡ create k a m.next_token_id)
        × (m'.budgets ≡ replace k (held b a) m.budgets)
        × ((a ≤? lit 0) ≡ false)
        × ((b.available_krw <? a) ≡ false)
  unfolding reserve held
  reserve_success m k a b t m' q e = ground arith

  held-IsBacked :
      (k : String) (a : D) (id : ℕ) (b : MarketBudget D)
      → IsFunded b
      → (a ≤? lit 0) ≡ false
      → (b.available_krw <? a) ≡ false
      → IsBacked (create k a id) (held b a)
  unfolding create held remaining
  held-IsBacked k a id b f pos enough = record {
    active = refl;
    used = omega (arith, zero_parts a);
    within = omega (arith, zero_parts a, pos→nonneg a pos);
    available = omega (arith, sub_parts b.available_krw a, not-lt→ b.available_krw a enough);
    reserved = omega (arith, add_parts b.reserved_krw a, pos→nonneg a pos, f.reserved);
    backed =
        omega (arith, add_parts b.reserved_krw a, sub_parts a (lit 0), zero_parts a, f.reserved);
  }

  krw-held-zero : (b : MarketBudget D) (a : D) → krw (held b a) ⊕ lit 0 ≡ krw b
  unfolding held
  krw-held-zero b a = ext _ _ (omega (exact, zero_parts a))

  finalize_order-active :
      (cfg : AccountConfig D) (m : AccountManager D) (t : ReservationToken D)
      → t.active ≡ true
      → finalize_order cfg m t ≡ close_token cfg m t
  unfolding finalize_order close_token
  finalize_order-active cfg m t e = ground arith

  backed_conserves :
      (cfg : AccountConfig D) (m : AccountManager D) (t : ReservationToken D) (b : MarketBudget D)
      (fs : List (Fill D))
      → lookup t.market m.budgets ≡ some b
      → IsBacked t b
      → let (t', m') = fill_all m t fs in
        let (t'', m'') = finalize_order cfg m' t' in
        (b'' : MarketBudget D) × (lookup t.market m''.budgets ≡ some b'')
        × (krw b'' ⊕ t'.consumed ≡ krw b ⊕ t.consumed)
        × (t'.consumed ≼ t.amount)
        × (t''.active ≡ false)
  backed_conserves cfg m t b fs q h =
      let r = fill_all m t fs in
      let (b', q', h', s') = fill_all-Settled m t b fs q h in
      let same : finalize_order cfg r.1 r.0 ≡ close_token cfg r.1 r.0 =
        finalize_order-active cfg r.1 r.0 h'.active in
      let found : lookup r.0.market r.1.budgets ≡ some b' =
        ap (λ k. lookup k r.1.budgets) s'.market ∙ q' in
      let total : krw (closed cfg r.0 b') ≡ krw b' = krw-closed cfg r.0 b' h' in
      rw same (
        closed cfg r.0 b',
        ap (λ k. lookup k (close_token cfg r.1 r.0).1.budgets) (sym s'.market)
            ∙ lookup-close_token cfg r.1 r.0 b' found,
        ap (λ z. z ⊕ r.0.consumed) total
            ∙ ext (krw b' ⊕ r.0.consumed) (krw b ⊕ t.consumed)
                (omega (exact, s'.sum, ap credit s'.free, ap debit s'.free)),
        subst (λ z. r.0.consumed ≼ z) s'.amount h'.within,
        close_token-inactive cfg r.1 r.0,
      )

  -- A buy order that is reserved, filled any number of times and closed spends what its fills
  -- consumed, at most the amount of the reservation; the rest of the market's KRW is all there.
  pub order_conserves :
      (cfg : AccountConfig D) (m m1 : AccountManager D) (k : String) (a : D) (b : MarketBudget D)
      (t : ReservationToken D) (fs : List (Fill D))
      → lookup k m.budgets ≡ some b
      → IsFunded b
      → reserve m k a ≡ (some t, m1)
      → let (t', m') = fill_all m1 t fs in
        let (t'', m'') = finalize_order cfg m' t' in
        (b'' : MarketBudget D) × (lookup k m''.budgets ≡ some b'')
        × (krw b'' ⊕ t'.consumed ≡ krw b)
        × (t'.consumed ≼ a)
        × (t''.active ≡ false)
  unfolding create held
  order_conserves cfg m m1 k a b t fs q f e =
      let (made, written, pos, enough) = reserve_success m k a b t m1 q e in
      let whole : IsBacked t (held b a) =
        subst (λ u. IsBacked u (held b a)) (sym made)
          (held-IsBacked k a m.next_token_id b f pos enough) in
      let there : t.market ≡ k = ap (λ u. u.market) made in
      let found : lookup k m1.budgets ≡ some (held b a) =
        ap (lookup k) written ∙ lookup-replace_self k (held b a) b m.budgets q in
      let (b'', q'', sum, small, off) =
        backed_conserves cfg m1 t (held b a) fs (ap (λ u. lookup u m1.budgets) there ∙ found)
          whole in
      (
        b'',
        ap (λ u. lookup u (finalize_order cfg (fill_all m1 t fs).1 (fill_all m1 t fs).0).1.budgets)
              (sym there)
            ∙ q'',
        sum ∙ ap (λ u. krw (held b a) ⊕ u.consumed) made ∙ krw-held-zero b a,
        subst (λ u. (fill_all m1 t fs).0.consumed ≼ u) (ap (λ u. u.amount) made) small,
        off,
      )

  give_back-held :
      (b : MarketBudget D) (a : D) → IsNonneg b.reserved_krw → give_back (held b a) (a ⊖ lit 0) ≡ b
  unfolding give_back held
  give_back-held b a f =
      rw (sub-zero a, add-sub b.reserved_krw a, not-neg b.reserved_krw f, sub-add b.available_krw a)

  release_created :
      (m : AccountManager D) (k : String) (a : D) (id : ℕ) (b : MarketBudget D)
      → lookup k m.budgets ≡ some b
      → (release m (create k a id)).1.budgets ≡ replace k (give_back b (a ⊖ lit 0)) m.budgets
  unfolding release release_without_token release_internal create remaining
  release_created m k a id b q = rw (q, release_internal)

  -- A reservation that is released before any fill leaves every budget as it was.
  pub release-reserve :
      (m m1 : AccountManager D) (k : String) (a : D) (b : MarketBudget D) (t : ReservationToken D)
      → lookup k m.budgets ≡ some b
      → IsNonneg b.reserved_krw
      → reserve m k a ≡ (some t, m1)
      → (release m1 t).1.budgets ≡ m.budgets
  release-reserve m m1 k a b t q f e =
      let (made, written, pos, enough) = reserve_success m k a b t m1 q e in
      let found : lookup k m1.budgets ≡ some (held b a) =
        ap (lookup k) written ∙ lookup-replace_self k (held b a) b m.budgets q in
      ap (λ u. (release m1 u).1.budgets) made
      ∙ release_created m1 k a m.next_token_id (held b a) found
      ∙ ap (λ c. replace k c m1.budgets) (give_back-held b a f)
      ∙ ap (replace k b) written
      ∙ replace-replace k b (held b a) m.budgets
      ∙ replace_same k b m.budgets q
