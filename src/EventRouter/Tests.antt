-- ===== src/EventRouter/Tests.antt =====
-- Runs of the router on messages of two markets.
use coin_bot.Base.{String, true, false, Option, none, some, [], ◌∷◌, ◌≡◌, refl}
use coin_bot.Base.Dict.{lookup}
use coin_bot.BlockingQueue.{empty_queue}
use coin_bot.EventRouter.{EngineInput, Router, route_market_data, route_my_order}
use coin_bot.EventRouter.Extract.{
  is_space, Parsed, extract_string_value, extract_market_fast, after_key,
}
use coin_bot.EventRouter.Deliver.{Handles, routes_deliver}
use coin_bot.EventRouter.Scan.{blank, extract_member}

abbrev message : String
message = "{\"type\":\"trade\",\"code\" : \"KRW-BTC\",\"x\":1}"

-- A library that discards every text.
abbrev discard : String → Option Parsed
discard json = none

abbrev router : Router
router = record {
  routes = ("KRW-BTC", 7) ∷ [];
  accepting = true;
  stats = record {
    fast_path_success = 0;
    fallback_used = 0;
    parse_failures = 0;
    conflict_detected = 0;
    unknown_market = 0;
    total_routed = 0;
  };
  queues = λ at. empty_queue 2;
}

scanned : extract_market_fast message ≡ record { market = some "KRW-BTC"; had_conflict = false }
unfolding extract_market_fast
scanned = refl

routed : (route_my_order discard message router).0 ≡ true
unfolding route_my_order lookup extract_market_fast
routed = refl

routes_deliver_example :
    Handles discard message
      (EngineInput.market_data_raw message)
      router
      (route_market_data discard message router)
    × Handles discard message
        (EngineInput.my_order_raw message)
        router
        (route_my_order discard message router)
routes_deliver_example = routes_deliver discard message router refl

found : after_key message "\"code\"" ≡ some " : \"KRW-BTC\",\"x\":1}"
unfolding after_key
found = refl

blank_space : blank " " ≡ true
unfolding is_space
blank_space = refl

extract_member_example : extract_string_value message "\"code\"" ≡ some "KRW-BTC"
extract_member_example =
    extract_member message "\"code\"" " " " " "KRW-BTC" ",\"x\":1}" found blank_space blank_space
      refl
