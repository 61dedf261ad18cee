-- ===== src/Upbit/Shared/Alone.antt =====
-- The threads in the calls of the exchange's client.
use coin_bot.Base.{
  ℕ, zero, suc, ◌+◌, ◌≤◌, ◌≢◌, Bool, true, false, none, some, List, ◌≡◌, refl, sym, ◌∙◌, ap, arith,
  ltb, ◌==◌, Bool-cases, Option-cases, inl, inr, ◌⊎◌, subst,
}
use coin_bot.Upbit.Shared.{
  Place, outside, locked, counted, raising, calling, done, SharedOrderApi, move_to, step_at, step,
  run_steps, run_holder, next_of, unused,
}
use coin_bot.Upbit.Shared.Serial.{
  Counts, Held, IsSerial, holds, holds_inside, put_here, step_at-IsSerial, run_steps-IsSerial,
}

-- How many steps are left in the lock, if no exchange fails without a reason.
abbrev rank : Place → ℕ
rank outside = 0
rank locked = 5
rank (counted cur) = 4
rank (raising cur prev) = 3
rank calling = 2
rank done = 1

-- The holder of the lock has one step less to go, or has freed the lock.
abbrev Advanced : ℕ → Place → SharedOrderApi → Type 0
Advanced t p w = (w.mtx ≡ none) ⊎ ((w.mtx ≡ some t) × (rank (w.place t) + 1 ≡ rank p))

step_at-Advanced :
    (t : ℕ) (w : SharedOrderApi) (p : Place)
    → w.mtx ≡ some t
    → w.place t ≡ p
    → IsSerial w
    → p ≢ outside
    → Advanced t p (step_at t false w p)
unfolding step_at move_to
step_at-Advanced t w outside m e h ne = absurd (ne refl)
step_at-Advanced t w locked m e h ne =
    inr (m, ap (λ p. rank p + 1) (put_here t (counted (w.in_flight + 1)) w.place))
step_at-Advanced t w (counted cur) m e h ne =
    inr (m, ap (λ p. rank p + 1) (put_here t (raising cur w.max_in_flight) w.place))
step_at-Advanced t w (raising cur prev) m e h ne =
    let (_, (_, _, same)) = holds_inside t (raising cur prev) w h e ne in
    let here = ap (λ p. rank p + 1) (put_here t calling w.place) in
    let won : (prev == w.max_in_flight) ≡ true = ground (arith, same) in
    elim (Bool-cases (ltb prev cur)) [
      | inr high ↦ rw high (inr (m, here))
      | inl low ↦ rw (low, won) (inr (m, here))
    ]
step_at-Advanced t w calling m e h ne = inr (m, ap (λ p. rank p + 1) (put_here t done w.place))
step_at-Advanced t w done m e h ne = inl refl

Counts-bounded : (p : Place) (n most : ℕ) → Counts p n most → (n ≤ 1) × (0 ≢ rank p)
Counts-bounded outside n most c = absurd c
Counts-bounded locked n most c = (omega (arith, c), omega arith)
Counts-bounded (counted cur) n most (c, _) = (omega (arith, c), omega arith)
Counts-bounded (raising cur prev) n most (c, _, _) = (omega (arith, c), omega arith)
Counts-bounded calling n most c = (omega (arith, c), omega arith)
Counts-bounded done n most c = (omega (arith, c), omega arith)

in_flight-bounded : (w : SharedOrderApi) → IsSerial w → w.in_flight ≤ 1
in_flight-bounded w h = elim (Option-cases w.mtx) [
  | inl m ↦ let none_in : w.in_flight ≡ 0 = subst (λ x. Held x w) m h.held in omega (arith, none_in)
  | inr (t, m) ↦
      (Counts-bounded (w.place t) w.in_flight w.max_in_flight (subst (λ x. Held x w) m h.held)).0
]

run_holder-frees :
    (n : ℕ) (w : SharedOrderApi)
    → IsSerial w
    → ((u : ℕ) → w.mtx ≡ some u → rank (w.place u) ≤ n)
    → (run_holder n w).mtx ≡ none
unfolding run_holder step
run_holder-frees zero w h f = elim (Option-cases w.mtx) [
  | inl m ↦ m
  | inr (t, m) ↦
      let counts =
        Counts-bounded (w.place t) w.in_flight w.max_in_flight (subst (λ x. Held x w) m h.held) in
      absurd (omega (arith, counts.1, f t m))
]
run_holder-frees (suc n) w h f = elim (Option-cases w.mtx) [
  | inl m ↦ ap (λ x. (run_holder n (next_of w x)).mtx) m ∙ run_holder-frees n w h (λ u e. absurd cc)
  | inr (t, m) ↦
      let w' = step_at t false w (w.place t) in
      let counts =
        Counts-bounded (w.place t) w.in_flight w.max_in_flight (subst (λ x. Held x w) m h.held) in
      let inside : w.place t ≢ outside = λ e. counts.1 (sym (ap rank e)) in
      let before = f t m in
      ap (λ x. (run_holder n (next_of w x)).mtx) m
      ∙ run_holder-frees n w' (step_at-IsSerial t false w (w.place t) refl h) (λ u e.
        elim (step_at-Advanced t w (w.place t) m refl h inside) [
          | inl free ↦ let clash : some u ≡ none = sym e ∙ free in absurd cc
          | inr (still, less) ↦
              let twice : some u ≡ some t = sym e ∙ still in
              let same : u ≡ t = cc in
              subst (λ v. rank (w'.place v) ≤ n) (sym same) (omega (arith, less, before))
        ])
]

rank-bounded : (p : Place) → rank p ≤ 5
rank-bounded outside = omega arith
rank-bounded locked = omega arith
rank-bounded (counted cur) = omega arith
rank-bounded (raising cur prev) = omega arith
rank-bounded calling = omega arith
rank-bounded done = omega arith

-- However many threads call the shared client, and in whatever order their steps come: a thread that is not
-- outside holds the lock, so that the client is called by one at a time; at most one call is counted as in
-- flight, and the largest count that was seen is at most one; and the thread that holds the lock frees it
-- with its next five steps, if no exchange of a counter fails without a reason.
pub one_call_at_a_time :
    (steps : List (ℕ × Bool)) (t : ℕ)
    → let w = run_steps steps unused in
      ((w.place t ≡ outside) ⊎ (w.mtx ≡ some t))
      × (w.in_flight ≤ 1)
      × (w.max_in_flight ≤ 1)
      × ((run_holder 5 w).mtx ≡ none)
one_call_at_a_time steps t =
    let w = run_steps steps unused in
    let h =
      run_steps-IsSerial steps unused
        (record { others = λ u e. refl; held = refl; most = omega arith }) in
    (
      holds t w h,
      in_flight-bounded w h,
      h.most,
      run_holder-frees 5 w h (λ u e. rank-bounded (w.place u)),
    )
