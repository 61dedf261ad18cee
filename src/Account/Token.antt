-- ===== src/Account/Token.antt =====
-- `ReservationToken` of trading/allocation/AccountManager.h: a move-only claim on reserved KRW.
use coin_bot.Base.{ℕ, String, Bool, true, false, if◌then◌else◌}
use coin_bot.Double.{Double, ◌⊕◌, ◌⊖◌, ◌<?◌, lit}

pub record ReservationToken (D : Type 0) : Type 0 where
  -- `manager_ != nullptr`; there is one manager
  pub has_manager : Bool
  pub market : String
  pub amount : D
  pub consumed : D
  pub id : ℕ
  pub active : Bool

module _ {D : Type 0} ⦃d : Double D⦄ where
  -- the private constructor
  unfoldable pub create : String → D → ℕ → ReservationToken D
  create market amount id = record {
    has_manager = true;
    market = market;
    amount = amount;
    consumed = lit 0;
    id = id;
    active = true;
  }

  unfoldable pub remaining : ReservationToken D → D
  remaining t = t.amount ⊖ t.consumed

  unfoldable pub add_consumed : ReservationToken D → D → ReservationToken D
  add_consumed t executed_krw =
      let sum = t.consumed ⊕ executed_krw in
      record t { consumed = if t.amount <? sum then t.amount else sum }

module _ {D : Type 0} where
  unfoldable pub deactivate : ReservationToken D → ReservationToken D
  deactivate t = record t { active = false }

  -- The move constructor: the new token, and what is left of the old one. The moved-from text is
  -- not read again, and is left as it was.
  unfoldable pub move : ReservationToken D → ReservationToken D × ReservationToken D
  move t = (t, record t { has_manager = false; active = false })
