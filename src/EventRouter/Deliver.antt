-- ===== src/EventRouter/Deliver.antt =====
-- Which queue a message goes to, and how it is counted.
use coin_bot.Base.{
  ℕ, ◌+◌, ◌%◌, ◌^◌, String, Bool, true, false, Option, none, some, ◌≡◌, refl, arith, is_some, ◌==◌,
  not, ◌&&◌, if◌then◌else◌, inl, inr, Bool-cases,
}
use coin_bot.Base.Dict.{lookup}
use coin_bot.BlockingQueue.{BlockingQueue, push}
use coin_bot.EventRouter.{
  EngineInput, Stats, Router, increment, deliver, route_slow, route_fast, route, route_my_order,
  route_market_data,
}
use coin_bot.EventRouter.Extract.{Parsed, extract_market_fast, extract_market_slow, first_of}

-- The market that a message names: none if the scan finds two that differ.
abbrev pub market_of : (String → Option Parsed) → String → Option String
market_of parse json =
    let fast = extract_market_fast json in
    if fast.had_conflict then none else first_of fast.market (extract_market_slow parse json)

abbrev route_of : Option String → Router → Option ℕ
route_of none r = none
route_of (some market) r = lookup market r.routes

abbrev pub destination : (String → Option Parsed) → String → Router → Option ℕ
destination parse json r = if r.accepting then route_of (market_of parse json) r else none

-- The queue at `at` when `input` has been put into the queue that the message goes to.
abbrev pub receives : Option ℕ → EngineInput → Router → ℕ → BlockingQueue EngineInput
receives none input r at = r.queues at
receives (some to) input r at = if at == to then push (r.queues at) input else r.queues at

-- A call that was let in is counted once: as routed, or by why it was not.
abbrev pub counted : Stats → ℕ
counted s = (s.total_routed + s.parse_failures + s.conflict_detected + s.unknown_market) % 2 ^ 64

abbrev pub IsCounted : Stats → Type 0
IsCounted s = (s.fast_path_success + s.fallback_used) % 2 ^ 64 ≡ s.total_routed

abbrev pub count_if : Bool → ℕ → ℕ
count_if b n = if b then increment n else n

-- Which counters a call raises: whether the scan found two markets, whether it found one, whether the
-- message names a market, and whether that has a queue, decide between the six.
pub record Counts (let_in conflict scanned named routed : Bool) (s s' : Stats) : Type 0 where
  pub total : s'.total_routed ≡ count_if routed s.total_routed
  pub by_scan : s'.fast_path_success ≡ count_if (routed && scanned) s.fast_path_success
  pub by_library : s'.fallback_used ≡ count_if (routed && not scanned) s.fallback_used
  pub conflicts : s'.conflict_detected ≡ count_if (let_in && conflict) s.conflict_detected
  pub nameless : s'.parse_failures ≡ count_if (let_in && not conflict && not named) s.parse_failures
  pub unknown :
      s'.unknown_market ≡ count_if (let_in && not conflict && named && not routed) s.unknown_market

abbrev pub Delivers : Bool → Bool → Bool → Option ℕ → EngineInput → Router → Bool × Router → Type 0
Delivers conflict scanned named to input r (sent, r') =
    Counts r.accepting conflict scanned named (is_some to) r.stats r'.stats
    × (sent ≡ is_some to)
    × ((at : ℕ) → r'.queues at ≡ receives to input r at)
    × (counted r'.stats ≡ (if r.accepting then increment (counted r.stats) else counted r.stats))
    × IsCounted r'.stats
    × (r'.routes ≡ r.routes)

deliver-Delivers :
    (input : EngineInput) (b : Bool) (to : Option ℕ) (r : Router)
    → r.accepting ≡ true
    → IsCounted r.stats
    → Delivers false b true to input r (deliver input b to r)
unfolding deliver
deliver-Delivers input b none r a h = (rw a (ground arith), refl, λ at. refl, ground arith, h, refl)
deliver-Delivers input b (some to) r a h =
    (rw a (ground arith), refl, λ at. refl, ground arith, ground arith, refl)

slow-Delivers :
    (input : EngineInput) (market : Option String) (r : Router)
    → r.accepting ≡ true
    → IsCounted r.stats
    → Delivers false false (is_some market) (route_of market r) input r (route_slow input market r)
unfolding route_slow
slow-Delivers input none r a h = (rw a (ground arith), refl, λ at. refl, ground arith, h, refl)
slow-Delivers input (some market) r a h =
    deliver-Delivers input false (lookup market r.routes) r a h

fast-Delivers :
    (input : EngineInput) (market slow : Option String) (r : Router)
    → r.accepting ≡ true
    → IsCounted r.stats
    → let named = first_of market slow in
      Delivers false
        (is_some market)
        (is_some named)
        (route_of named r)
        input
        r
        (route_fast input market slow r)
unfolding route_fast
fast-Delivers input none slow r a h = slow-Delivers input slow r a h
fast-Delivers input (some market) slow r a h =
    deliver-Delivers input true (lookup market r.routes) r a h

-- What a call does with a message, by what the scan and the JSON library find in it.
abbrev pub Handles :
    (String → Option Parsed) → String → EngineInput → Router → Bool × Router → Type 0
Handles parse json input r =
    let fast = extract_market_fast json in
    Delivers fast.had_conflict (is_some fast.market) (is_some (market_of parse json))
      (destination parse json r) input r

route-Handles :
    (parse : String → Option Parsed) (json : String) (input : EngineInput) (r : Router)
    → IsCounted r.stats
    → Handles parse json input r (route parse json input r)
unfolding route
route-Handles parse json input r h = elim (Bool-cases r.accepting) [
  | inr shut ↦ rw shut (ground arith, refl, λ at. refl, refl, h, refl)
  | inl let_in ↦
      let fast = extract_market_fast json in
      elim (Bool-cases fast.had_conflict) [
        | inl conflict ↦
            rw (let_in, conflict) (ground arith, refl, λ at. refl, ground arith, h, refl)
        | inr clear ↦
            let slow = extract_market_slow parse json in
            let named : market_of parse json ≡ first_of fast.market slow = ground arith in
            let goes : destination parse json r ≡ route_of (first_of fast.market slow) r =
              ground arith in
            let sent = route_fast input fast.market slow r in
            let same : route parse json input r ≡ sent = ground arith in
            rw (same, goes, named, clear) (fast-Delivers input fast.market slow r let_in h)
      ]
]

-- From counters that agree, the two methods put a message into the queue of the market that it names
-- and into no other, and return whether there is such a queue; the routes stay. A message that is put
-- counts as routed, and as found by the scan or by the JSON library, whichever gave its market; one that
-- is let in and not put counts as a conflict if the scan finds two markets, else as a failure to parse
-- if neither finds one, else as of an unknown market. All counts are modulo 2 ^ 64, no other counter
-- changes, and the counters agree afterwards.
pub routes_deliver :
    (parse : String → Option Parsed) (json : String) (r : Router)
    → IsCounted r.stats
    → Handles parse json (EngineInput.market_data_raw json) r (route_market_data parse json r)
      × Handles parse json (EngineInput.my_order_raw json) r (route_my_order parse json r)
unfolding route_market_data route_my_order
routes_deliver parse json r h = (
  route-Handles parse json (EngineInput.market_data_raw json) r h,
  route-Handles parse json (EngineInput.my_order_raw json) r h,
)
