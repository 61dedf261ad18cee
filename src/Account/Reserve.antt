-- ===== src/Account/Reserve.antt =====
-- The token as a resource (its destructor and move), and the calls of `AccountManager` as steps.
use coin_bot.Base.{String, true, false, Option, ◌≡◌, refl, arith}
use coin_bot.Double.{Double}
use coin_bot.Double.Exact.{IsExact, IsNonneg}
use coin_bot.Domain.Account.{Account, AccountConfig}
use coin_bot.Account.{
  AccountManager, reserve, release, destroy, finalize_fill_buy, finalize_fill_sell,
  finalize_sell_order, finalize_order, close_token,
}
use coin_bot.Account.Token.{ReservationToken, remaining, deactivate, move}
use coin_bot.Account.Build.{rebuild_from_account}
use coin_bot.Account.Rebuild.{rebuild_from_account-IsSolvent}
use coin_bot.Account.Solvent.{
  IsSolvent, IsClaim, reserve-IsSolvent, release-IsSolvent, destroy-IsSolvent,
  finalize_fill_buy-IsSolvent, finalize_fill_sell-IsSolvent, finalize_sell_order-IsSolvent,
  finalize_order-IsSolvent,
}

module _ {D : Type 0} ⦃d : Double D⦄ where
  pub close_token-inactive :
      (cfg : AccountConfig D) (m : AccountManager D) (t : ReservationToken D)
      → (close_token cfg m t).0.active ≡ false
  unfolding close_token deactivate
  close_token-inactive cfg m t = ground arith

  pub destroy_inactive :
      (m : AccountManager D) (t : ReservationToken D) → t.active ≡ false → destroy t m ≡ m
  unfolding destroy
  destroy_inactive m t h = ground arith

  pub finalize_order-inactive :
      (cfg : AccountConfig D) (m : AccountManager D) (t : ReservationToken D)
      → (finalize_order cfg m t).0.active ≡ false
  unfolding finalize_order
  finalize_order-inactive cfg m t = ground (arith, close_token-inactive cfg m t)

  -- A live token that dies frees what `release` would free; one that was moved from, released or
  -- closed frees nothing.
  pub destroy_once :
      (cfg : AccountConfig D) (m : AccountManager D) (t : ReservationToken D)
      → t.has_manager ≡ true
      → (destroy t m ≡ (release m t).1)
        × (destroy (move t).1 m ≡ m)
        × (destroy (release m t).0 (release m t).1 ≡ (release m t).1)
        × (destroy (finalize_order cfg m t).0 (finalize_order cfg m t).1
            ≡ (finalize_order cfg m t).1)
  unfolding destroy move release deactivate remaining
  destroy_once cfg m t h = (
    ground arith,
    refl,
    ground arith,
    destroy_inactive (finalize_order cfg m t).1 (finalize_order cfg m t).0
        (finalize_order-inactive cfg m t),
  )

-- The calls that change a manager, on the tokens and the accounts that it may be given.
pub data Step {D : Type 0} ⦃d : Double D⦄ ⦃x : IsExact D⦄ (cfg : AccountConfig D)
    : AccountManager D → AccountManager D → Type 0 where
  reserves : (m : AccountManager D) (k : String) (a : D) → Step cfg m (reserve m k a).1
  releases :
      (m : AccountManager D) (t : ReservationToken D) → IsClaim t → Step cfg m (release m t).1
  dies : (m : AccountManager D) (t : ReservationToken D) → IsClaim t → Step cfg m (destroy t m)
  buys :
      (m : AccountManager D) (t : ReservationToken D) (e c p : D)
      → Step cfg m (finalize_fill_buy m t e c p).1
  sells :
      (m : AccountManager D) (k : String) (sold got : D)
      → Step cfg m (finalize_fill_sell m k sold got)
  closes_sale :
      (m : AccountManager D) (k : String) (mark : Option D)
      → Step cfg m (finalize_sell_order cfg m k mark)
  closes :
      (m : AccountManager D) (t : ReservationToken D)
      → IsClaim t
      → Step cfg m (finalize_order cfg m t).1
  rebuilds :
      (m : AccountManager D) (account : Account D)
      → IsNonneg account.krw_free
      → Step cfg m (rebuild_from_account cfg account m)

pub data Reach {D : Type 0} ⦃d : Double D⦄ ⦃x : IsExact D⦄ (cfg : AccountConfig D)
    (m : AccountManager D) : AccountManager D → Type 0 where
  here : Reach cfg m m
  next : {m' m'' : AccountManager D} → Reach cfg m m' → Step cfg m' m'' → Reach cfg m m''

module _ {D : Type 0} ⦃d : Double D⦄ ⦃x : IsExact D⦄ (cfg : AccountConfig D) where
  Step-IsSolvent : {m m' : AccountManager D} → Step cfg m m' → IsSolvent m → IsSolvent m'
  Step-IsSolvent (reserves m k a) s = reserve-IsSolvent m k a s
  Step-IsSolvent (releases m t c) s = release-IsSolvent m t c s
  Step-IsSolvent (dies m t c) s = destroy-IsSolvent m t c s
  Step-IsSolvent (buys m t e c p) s = finalize_fill_buy-IsSolvent m t e c p s
  Step-IsSolvent (sells m k sold got) s = finalize_fill_sell-IsSolvent m k sold got s
  Step-IsSolvent (closes_sale m k mark) s = finalize_sell_order-IsSolvent cfg m k mark s
  Step-IsSolvent (closes m t c) s = finalize_order-IsSolvent cfg m t c s
  Step-IsSolvent (rebuilds m account p) s = rebuild_from_account-IsSolvent cfg account m p s

  -- Whatever calls are made, in whatever order and with whatever amounts, no market's free or
  -- reserved KRW becomes negative, if a token that is released, closed or destroyed claims no more than
  -- it was made for, and an account that the budgets are rebuilt from has no negative KRW.
  pub Reach-IsSolvent : {m m' : AccountManager D} → IsSolvent m → Reach cfg m m' → IsSolvent m'
  Reach-IsSolvent s here = s
  Reach-IsSolvent s (next r st) = Step-IsSolvent st (Reach-IsSolvent s r)
