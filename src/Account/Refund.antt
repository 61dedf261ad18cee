-- ===== src/Account/Refund.antt =====
-- `reserve` that fails, and `release` followed by the destructor of the token.
use coin_bot.Base.{String, none, some, ◌≡◌, ap, ◌∙◌, arith}
use coin_bot.Base.Dict.{lookup}
use coin_bot.Double.{Double}
use coin_bot.Double.Exact.{IsExact, IsNonneg}
use coin_bot.Domain.Account.{AccountConfig}
use coin_bot.Account.{AccountManager, MarketBudget, reserve, release, destroy}
use coin_bot.Account.Token.{ReservationToken, create}
use coin_bot.Account.Reserve.{destroy_once}
use coin_bot.Account.Conservation.{release-reserve, reserve_success}

module _ {D : Type 0} ⦃d : Double D⦄ where
  pub reserve_refused :
      (m : AccountManager D) (k : String) (a : D)
      → (reserve m k a).0 ≡ none
      → (reserve m k a).1.budgets ≡ m.budgets
  unfolding reserve
  reserve_refused m k a e = ground arith

module _ {D : Type 0} ⦃d : Double D⦄ ⦃exact_D : IsExact D⦄ where
  pub release_dies :
      (cfg : AccountConfig D) (m : AccountManager D) (k : String) (a : D) (b : MarketBudget D)
      (t : ReservationToken D)
      → lookup k m.budgets ≡ some b
      → IsNonneg b.reserved_krw
      → (reserve m k a).0 ≡ some t
      → let (t', m') = release (reserve m k a).1 t in (destroy t' m').budgets ≡ m.budgets
  unfolding create
  release_dies cfg m k a b t q f e =
      let m1 = (reserve m k a).1 in
      let whole : reserve m k a ≡ (some t, m1) = ap (λ o. (o, m1)) e in
      let (made, _, _, _) = reserve_success m k a b t m1 q whole in
      let (_, _, once, _) = destroy_once cfg m1 t (ap (λ u. u.has_manager) made) in
      ap (λ x. x.budgets) once ∙ release-reserve m m1 k a b t q f whole
