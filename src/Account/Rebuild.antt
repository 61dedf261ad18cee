-- ===== src/Account/Rebuild.antt =====
-- `rebuildFromAccount`: the free and the reserved KRW of each market.
use coin_bot.Base.{String, List, [], ◌∷◌, inl, inr, Option-cases, Bool-cases, length}
use coin_bot.Base.Dict.{Dict, lookup, update_all, Each, Each-replace, Each-lookup, Each-update_all}
use coin_bot.Double.{Double, ◌⊗◌, ◌⊘◌, ◌<?◌, lit}
use coin_bot.Double.Exact.{IsExact, IsNonneg, share_nonneg, zero_nonneg}
use coin_bot.Domain.Account.{Account, Position, AccountConfig}
use coin_bot.Account.{AccountManager, MarketBudget}
use coin_bot.Account.Build.{
  market_of, reload_position, place, place_all, clear_coin, refund, refund_all, reload, refund_flat,
  rebuild_from_account,
}
use coin_bot.Account.Solvent.{IsFunded, IsSolvent}

module _ {D : Type 0} ⦃d : Double D⦄ ⦃x : IsExact D⦄ where
  reload_position-IsFunded :
      (threshold : D) (p : Position D) (b : MarketBudget D)
      → IsFunded b
      → IsFunded (reload_position threshold p b)
  unfolding reload_position
  reload_position-IsFunded threshold p b f =
      elim (Bool-cases (p.free ⊗ p.avg_buy_price <? threshold)) [
        | inl e ↦ rw e (record { available = f.available; reserved = f.reserved })
        | inr e ↦ rw e (record { available = zero_nonneg p.free; reserved = zero_nonneg p.free })
      ]

  place-IsFunded :
      (threshold : D) (p : Position D) (m : Dict (MarketBudget D))
      → Each IsFunded m
      → Each IsFunded (place (reload_position threshold) p m)
  unfolding place
  place-IsFunded threshold p m h = elim (Option-cases (lookup (market_of p.currency) m)) [
    | inl q ↦ rw (q, place) h
    | inr (b, q) ↦
        rw (q, place)
          (Each-replace IsFunded (market_of p.currency) _ m h (
            reload_position-IsFunded threshold p b
              (Each-lookup IsFunded (market_of p.currency) m b h q)))
  ]

  place_all-IsFunded :
      (threshold : D) (ps : List (Position D)) (m : Dict (MarketBudget D))
      → Each IsFunded m
      → Each IsFunded (place_all (reload_position threshold) ps m)
  unfolding place_all
  place_all-IsFunded threshold [] m h = h
  place_all-IsFunded threshold (p ∷ ps) m h =
      place_all-IsFunded threshold ps (place (reload_position threshold) p m)
        (place-IsFunded threshold p m h)

  refund_all-IsFunded :
      (share : D) (ks : List String) (m : Dict (MarketBudget D))
      → IsNonneg share
      → Each IsFunded m
      → Each IsFunded (refund_all share ks m)
  unfolding refund_all refund
  refund_all-IsFunded share [] m p h = h
  refund_all-IsFunded share (k ∷ ks) m p h =
      refund_all-IsFunded share ks _ p (elim (Option-cases (lookup k m)) [
        | inl q ↦ rw q h
        | inr (b, q) ↦
            rw q (
              Each-replace IsFunded k _ m h
                (record { available = p; reserved = zero_nonneg share }))
      ])

  refund_flat-IsFunded :
      (krw : D) (ks : List String) (m : Dict (MarketBudget D))
      → IsNonneg krw
      → Each IsFunded m
      → Each IsFunded (refund_flat krw ks m)
  unfolding refund_flat
  refund_flat-IsFunded krw [] m p h = h
  refund_flat-IsFunded krw (k ∷ ks) m p h =
      refund_all-IsFunded (krw ⊘ lit (length (k ∷ ks))) (k ∷ ks) m (share_nonneg krw (length ks) p)
        h

  pub rebuild_from_account-IsSolvent :
      (cfg : AccountConfig D) (account : Account D) (m : AccountManager D)
      → IsNonneg account.krw_free
      → IsSolvent m
      → IsSolvent (rebuild_from_account cfg account m)
  unfolding rebuild_from_account reload clear_coin
  rebuild_from_account-IsSolvent cfg account m p s = refund_flat-IsFunded account.krw_free _ _ p (
      place_all-IsFunded cfg.init_dust_threshold_krw account.positions
        (update_all clear_coin m.budgets)
        (Each-update_all IsFunded clear_coin m.budgets
          (λ b f. record { available = f.available; reserved = f.reserved }) s))
