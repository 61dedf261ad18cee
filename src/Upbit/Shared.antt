-- ===== src/Upbit/Shared.antt =====
-- api/upbit/SharedOrderApi.cpp: every call of the exchange's client runs under one lock and is counted while
-- it runs. The threads are numbers, and each takes one step at a time: a step is one operation on the lock or
-- on one of the two atomic counters. All five methods have the same steps around their call.
mod Serial
pub mod Alone
mod Tests
use coin_bot.Base.{
  ℕ, zero, suc, ◌+◌, ◌-◌, Bool, true, false, not, ◌&&◌, Option, none, some, List, [], ◌∷◌,
  if◌then◌else◌, is_some, ltb, ◌==◌,
}

-- Where a thread is.
pub data Place : Type 0 where
  outside : Place
  -- in the lock, before the guard
  locked : Place
  -- in `InFlightGuard`, with `cur`
  counted : ℕ → Place
  -- in the guard's loop, with `cur` and `prev`
  raising : ℕ → ℕ → Place
  -- in the call of the client
  calling : Place
  -- after `~InFlightGuard`, still in the lock
  done : Place

-- The lock with its holder, the counters, and where the threads are.
pub record SharedOrderApi : Type 0 where
  pub mtx : Option ℕ
  pub in_flight : ℕ
  pub max_in_flight : ℕ
  pub place : ℕ → Place

unfoldable pub put : ℕ → Place → (ℕ → Place) → ℕ → Place
put t p place u = if u == t then p else place u

unfoldable pub move_to : ℕ → Place → SharedOrderApi → SharedOrderApi
move_to t p w = record w { place = put t p w.place }

-- The next step of thread `t`, which is at the given place. A thread that finds the lock taken waits.
-- `spurious`: `compare_exchange_weak` fails although the value is the expected one.
unfoldable pub step_at : ℕ → Bool → SharedOrderApi → Place → SharedOrderApi
unfolding move_to
step_at t spurious w outside =
    if is_some w.mtx then w else move_to t locked (record w { mtx = some t })
step_at t spurious w locked =
    move_to t (counted (w.in_flight + 1)) (record w { in_flight = w.in_flight + 1 })
step_at t spurious w (counted cur) = move_to t (raising cur w.max_in_flight) w
step_at t spurious w (raising cur prev) =
    if not (ltb prev cur)
    then move_to t calling w
    else if prev == w.max_in_flight && not spurious
    then move_to t calling (record w { max_in_flight = cur })
    else move_to t (raising cur w.max_in_flight) w
step_at t spurious w calling = move_to t done (record w { in_flight = w.in_flight - 1 })
step_at t spurious w done = move_to t outside (record w { mtx = none })

unfoldable pub step : ℕ → Bool → SharedOrderApi → SharedOrderApi
unfolding step_at
step t spurious w = step_at t spurious w (w.place t)

-- The threads' steps in any order.
unfoldable pub run_steps : List (ℕ × Bool) → SharedOrderApi → SharedOrderApi
unfolding step
run_steps [] w = w
run_steps ((t, spurious) ∷ steps) w = run_steps steps (step t spurious w)

abbrev pub next_of : SharedOrderApi → Option ℕ → SharedOrderApi
next_of w none = w
next_of w (some t) = step t false w

-- That many steps of the thread that holds the lock, whose exchanges do not fail without a reason.
unfoldable pub run_holder : ℕ → SharedOrderApi → SharedOrderApi
unfolding step
run_holder zero w = w
run_holder (suc n) w = run_holder n (next_of w w.mtx)

abbrev pub unused : SharedOrderApi
unused = record { mtx = none; in_flight = 0; max_in_flight = 0; place = λ t. outside }

-- `debugResetInFlight`, for measurements
unfoldable pub debug_reset_in_flight : SharedOrderApi → SharedOrderApi
debug_reset_in_flight w = record w { in_flight = 0; max_in_flight = 0 }
