-- ===== src/EventRouter.antt =====
-- app/EventRouter.cpp: the market of a message, found by a scan or by the JSON library, decides which
-- engine's queue it is put into. A text is its bytes.
pub mod Extract
pub mod Scan
pub mod Prefix
pub mod Deliver
mod Tests
use coin_bot.Base.{
  ℕ, ◌+◌, ◌%◌, ◌^◌, String, Bool, true, false, Option, none, some, ◌==◌, str_eq, is_empty, is_some,
  value_or, if◌then◌else◌,
}
use coin_bot.Base.Dict.{Dict, lookup, insert}
use coin_bot.BlockingQueue.{BlockingQueue, push}
use coin_bot.EventRouter.Extract.{FastResult, extract_market_fast, Parsed, extract_market_slow}

pub data EngineInput : Type 0 where
  my_order_raw market_data_raw : String → EngineInput
  account_sync_request : EngineInput

-- The counters are of 64 bits.
pub record Stats : Type 0 where
  pub fast_path_success : ℕ
  pub fallback_used : ℕ
  pub parse_failures : ℕ
  pub conflict_detected : ℕ
  pub unknown_market : ℕ
  pub total_routed : ℕ

abbrev pub increment : ℕ → ℕ
increment n = (n + 1) % 2 ^ 64

-- The router and the queues that its routes point to: two markets may have one queue.
pub record Router : Type 0 where
  pub routes : Dict ℕ
  pub accepting : Bool
  pub stats : Stats
  pub queues : ℕ → BlockingQueue EngineInput

unfoldable pub register_market : String → ℕ → Router → Router
register_market market queue r = record r { routes = insert market queue r.routes }

abbrev pub put_queue :
    ℕ → EngineInput → (ℕ → BlockingQueue EngineInput) → ℕ → BlockingQueue EngineInput
put_queue to input queues at = if at == to then push (queues at) input else queues at

-- The queue's lookup and what follows it; the Boolean is `used_fast`, else the JSON library was used.
unfoldable pub deliver : EngineInput → Bool → Option ℕ → Router → Bool × Router
deliver input used_fast none r = (
  false,
  record r { stats = record (r.stats) { unknown_market = increment r.stats.unknown_market } },
)
deliver input used_fast (some queue) r = (
  true,
  record r {
    stats = record (r.stats) {
      fast_path_success =
          if used_fast then increment r.stats.fast_path_success else r.stats.fast_path_success;
      fallback_used = if used_fast then r.stats.fallback_used else increment r.stats.fallback_used;
      total_routed = increment r.stats.total_routed;
    };
    queues = put_queue queue input r.queues;
  },
)

unfoldable pub route_slow : EngineInput → Option String → Router → Bool × Router
unfolding deliver
route_slow input none r = (
  false,
  record r { stats = record (r.stats) { parse_failures = increment r.stats.parse_failures } },
)
route_slow input (some market) r = deliver input false (lookup market r.routes) r

unfoldable pub route_fast : EngineInput → Option String → Option String → Router → Bool × Router
unfolding deliver route_slow
route_fast input none slow r = route_slow input slow r
route_fast input (some market) slow r = deliver input true (lookup market r.routes) r

-- What `routeMarketData` and `routeMyOrder` have in common: all but the message that is put.
unfoldable pub route : (String → Option Parsed) → String → EngineInput → Router → Bool × Router
unfolding route_fast
route parse json input r =
    let fast = extract_market_fast json in
    if r.accepting
    then if fast.had_conflict
      then (
        false,
        record r {
          stats = record (r.stats) { conflict_detected = increment r.stats.conflict_detected };
        },
      )
      else route_fast input fast.market (extract_market_slow parse json) r
    else (false, r)

unfoldable pub route_market_data : (String → Option Parsed) → String → Router → Bool × Router
unfolding route
route_market_data parse json r = route parse json (EngineInput.market_data_raw json) r

unfoldable pub route_my_order : (String → Option Parsed) → String → Router → Bool × Router
unfolding route
route_my_order parse json r = route parse json (EngineInput.my_order_raw json) r
