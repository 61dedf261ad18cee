-- ===== src/BlockingQueue/Tests.antt =====
-- Runs of the queue, with a bound and without.
use coin_bot.Base.{ℕ, true, some, List, [], ◌∷◌, ◌++◌, ◌≡◌, refl}
use coin_bot.BlockingQueue.{BlockingQueue, empty_queue, push, try_pop}
use coin_bot.BlockingQueue.Fifo.{Within, Calls, fits, uncleared, calls_in_order, nothing_lost}

abbrev sent : List ℕ
sent = 1 ∷ 2 ∷ 3 ∷ []

abbrev three : ℕ → BlockingQueue ℕ
three bound = push (push (push (empty_queue bound) 1) 2) 3

abbrev three_pushed : (bound : ℕ) → Calls bound sent [] (three bound)
three_pushed bound = Calls.pushes (Calls.pushes (Calls.pushes Calls.start 1) 2) 3

abbrev left : ℕ → List ℕ → BlockingQueue ℕ
left bound values = record { q = values; max_size = bound }

-- With a bound of two, the third value pushes the first one out.
second_first : try_pop (three 2) ≡ (some 2, left 2 (3 ∷ []))
unfolding empty_queue push try_pop
second_first = refl

first_first : try_pop (three 0) ≡ (some 1, left 0 (2 ∷ 3 ∷ []))
unfolding empty_queue push try_pop
first_first = refl

abbrev popped_one : Calls 0 sent (1 ∷ []) (left 0 (2 ∷ 3 ∷ []))
popped_one = Calls.pops (three_pushed 0) first_first

popped_one-uncleared : uncleared popped_one ≡ true
unfolding uncleared
popped_one-uncleared = refl

calls_in_order_example :
    Within (2 ∷ 3 ∷ []) sent × (fits (left 2 (3 ∷ [])) ≡ true) × ((left 2 (3 ∷ [])).max_size ≡ 2)
calls_in_order_example =
    calls_in_order 2 sent (2 ∷ []) (left 2 (3 ∷ [])) (Calls.pops (three_pushed 2) second_first)

nothing_lost_example : (1 ∷ []) ++ (left 0 (2 ∷ 3 ∷ [])).q ≡ sent
nothing_lost_example =
    nothing_lost 0 sent (1 ∷ []) (left 0 (2 ∷ 3 ∷ [])) popped_one refl popped_one-uncleared
