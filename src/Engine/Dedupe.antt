-- ===== src/Engine/Dedupe.antt =====
-- `makeTradeDedupeKey_` and `markTradeOnce` of engine/MarketEngine.cpp: each trade is handled once, as
-- far back as the window of `max_seen_trades` uuids reaches.
use coin_bot.Base.{
  ℕ, String, Bool, true, false, List, [], ◌∷◌, ◌++◌, not, if◌then◌else◌, is_empty, str_eq, length,
  ltb, ◌||◌,
}
use coin_bot.Domain.Order.{MyTrade}

-- `std::unordered_set`
unfoldable pub contains : String → List String → Bool
contains k [] = false
contains k (j ∷ s) = str_eq j k || contains k s

unfoldable pub erase_key : String → List String → List String
erase_key k [] = []
erase_key k (j ∷ s) = if str_eq j k then s else j ∷ erase_key k s

pub record Seen : Type 0 where
  -- `seen_trade_uuids_`
  pub uuids : List String
  -- `seen_trade_uuid_fifo_`, oldest first
  pub fifo : List String

-- The loop that evicts. It ends after at most one round for each uuid of the queue, which is what
-- the recursion is on.
unfoldable pub evict : ℕ → List String → List String → Seen
evict max uuids [] = record { uuids = uuids; fifo = [] }
evict max uuids (oldest ∷ rest) =
    let again = evict max (erase_key oldest uuids) rest in
    if ltb max (length (oldest ∷ rest))
    then again
    else record { uuids = uuids; fifo = oldest ∷ rest }

unfoldable pub mark_trade_once : ℕ → String → Seen → Bool × Seen
mark_trade_once max trade_uuid s =
    if is_empty trade_uuid
    then (false, s)
    else if contains trade_uuid s.uuids
    then (false, s)
    else (true, evict max (trade_uuid ∷ s.uuids) (s.fifo ++ (trade_uuid ∷ [])))

-- The text that stands for a trade without a uuid is printed from its fields, the numbers with twelve
-- decimals: `print` is that function, and is not empty, since it begins with `FALLBACK|`.
unfoldable pub make_trade_dedupe_key : {D : Type 0} → (MyTrade D → String) → MyTrade D → String
make_trade_dedupe_key print t = if not (is_empty t.trade_uuid) then t.trade_uuid else print t
