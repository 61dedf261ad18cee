-- ===== src/Upbit/Shared/Tests.antt =====
-- The theorem on the shared client for two threads, the second of which asks while the first is in its call.
use coin_bot.Base.{ℕ, ◌≤◌, Bool, true, false, none, some, List, [], ◌∷◌, ◌≡◌, ◌⊎◌, refl}
use coin_bot.Upbit.Shared.{put, outside, calling, run_steps, run_holder, unused}
use coin_bot.Upbit.Shared.Alone.{one_call_at_a_time}

abbrev steps : List (ℕ × Bool)
steps = (1, false) ∷ (1, false) ∷ (2, false) ∷ (1, false) ∷ (1, true) ∷ (1, false) ∷ (2, false) ∷ []

in_call :
    ((run_steps steps unused).place 1 ≡ calling) × ((run_steps steps unused).place 2 ≡ outside)
unfolding run_steps put
in_call = (refl, refl)

one_call_at_a_time_example :
    let w = run_steps steps unused in
    ((w.place 1 ≡ outside) ⊎ (w.mtx ≡ some 1))
    × (w.in_flight ≤ 1)
    × (w.max_in_flight ≤ 1)
    × ((run_holder 5 w).mtx ≡ none)
one_call_at_a_time_example = one_call_at_a_time steps 1
