-- ===== src/Startup/Held.antt =====
-- What the strategy knows after a recovery.
use coin_bot.Base.{
  String, Bool, true, false, ◌&&◌, ◌||◌, none, some, List, [], ◌∷◌, ◌++◌, ◌≡◌, refl, arith,
  if◌then◌else◌, is_empty, str_eq, All,
}
use coin_bot.Double.{Double, ◌<?◌, lit}
use coin_bot.Domain.Account.{Account, Position}
use coin_bot.Strategy.Types.{PositionSnapshot}
use coin_bot.Strategy.State.{RsiMeanReversionStrategy, State, sync_on_start, set_stops_from_entry}
use coin_bot.Startup.{
  Options, Answers, run, split_dash, base_currency, unit_currency, find_position, position_in,
  build_position_snapshot, no_position,
}

module _ {D : Type 0} ⦃d : Double D⦄ where
  abbrev pub is_in : String → String → Position D → Bool
  is_in base unit p = str_eq p.currency base && str_eq p.unit_currency unit

  find_position_first :
      (base unit : String) (before after : List (Position D)) (p : Position D)
      → All (λ q. is_in base unit q ≡ false) before
      → is_in base unit p ≡ true
      → find_position base unit (before ++ (p ∷ after))
        ≡ record { coin = p.free; avg_entry_price = p.avg_buy_price }
  unfolding find_position
  find_position_first base unit [] after p h e = rw e refl
  find_position_first base unit (q ∷ before) after p (n, h) e =
      rw n (find_position_first base unit before after p h e)

  -- A strategy that stands where a position puts it: in it, at its average price, or flat; with no
  -- order awaited either way.
  abbrev pub StandsAt : PositionSnapshot D → RsiMeanReversionStrategy D → Type 0
  StandsAt pos s =
      let holds = (lit 0 <? pos.coin) && (lit 0 <? pos.avg_entry_price) in
      (s.state ≡ (if holds then State.in_position else State.flat))
      × (s.entry_price ≡ (if holds then some pos.avg_entry_price else none))
      × (s.pending_client_id ≡ none)

  sync_on_start-StandsAt :
      (pos : PositionSnapshot D) (s : RsiMeanReversionStrategy D)
      → StandsAt pos (sync_on_start pos s)
  unfolding sync_on_start set_stops_from_entry
  sync_on_start-StandsAt pos s = ground arith

  -- After a recovery the strategy of the market "unit-base" stands where the account's first position
  -- in the two currencies puts it: in it at its average price, if there is coin and a price, or flat;
  -- and flat too if the exchange gave no account. It awaits no order.
  pub recovers_position :
      (x : Answers D) (market unit base : String) (opt : Options) (s : RsiMeanReversionStrategy D)
      (a : Account D) (before after : List (Position D)) (p : Position D)
      → split_dash market ≡ some (unit, base)
      → is_empty unit || is_empty base ≡ false
      → a.positions ≡ before ++ (p ∷ after)
      → All (λ q. is_in base unit q ≡ false) before
      → is_in base unit p ≡ true
      → StandsAt
          (record { coin = p.free; avg_entry_price = p.avg_buy_price })
          (run (record x { my_account = some a }) market opt s).1
        × StandsAt no_position (run (record x { my_account = none }) market opt s).1
  unfolding run build_position_snapshot position_in base_currency unit_currency
  recovers_position x market unit base opt s a before after p named filled here others e =
      let found : position_in market (some a)
          ≡ record { coin = p.free; avg_entry_price = p.avg_buy_price } =
        rw (named, here) (ground (arith, find_position_first base unit before after p others e)) in
      (
        rw found (
            sync_on_start-StandsAt (record { coin = p.free; avg_entry_price = p.avg_buy_price }) s),
        sync_on_start-StandsAt no_position s,
      )
