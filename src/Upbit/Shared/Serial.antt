-- ===== src/Upbit/Shared/Serial.antt =====
-- The counters, by where the holder of the lock is.
use coin_bot.Base.{
  ℕ, ◌+◌, ◌-◌, ◌≤◌, ◌≢◌, Bool, true, not, ◌&&◌, Option, none, some, List, [], ◌∷◌, ◌≡◌, refl, sym,
  ◌∙◌, ap, arith, is_some, ltb, ◌==◌, Bool-cases, Option-cases, inl, inr, ◌⊎◌, subst,
}
use coin_bot.Upbit.Shared.{
  Place, outside, locked, counted, raising, calling, done, SharedOrderApi, put, move_to, step_at,
  step, run_steps,
}

-- What the counters are while the holder of the lock is at a place.
abbrev pub Counts : Place → ℕ → ℕ → Type 0
Counts outside n most = ⊥
Counts locked n most = n ≡ 0
Counts (counted cur) n most = (n ≡ 1) × (cur ≡ 1)
Counts (raising cur prev) n most = (n ≡ 1) × (cur ≡ 1) × (prev ≡ most)
Counts calling n most = n ≡ 1
Counts done n most = n ≡ 0

abbrev pub Held : Option ℕ → SharedOrderApi → Type 0
Held none w = w.in_flight ≡ 0
Held (some t) w = Counts (w.place t) w.in_flight w.max_in_flight

pub record IsSerial (w : SharedOrderApi) : Type 0 where
  pub others : (u : ℕ) → w.mtx ≢ some u → w.place u ≡ outside
  pub held : Held w.mtx w
  pub most : w.max_in_flight ≤ 1

pub put_here : (t : ℕ) (p : Place) (place : ℕ → Place) → put t p place t ≡ p
unfolding put
put_here t p place = ground arith

put_there : (t u : ℕ) (p : Place) (place : ℕ → Place) → u ≢ t → put t p place u ≡ place u
unfolding put
put_there t u p place h = ground arith

-- The holder of the lock goes to another place inside.
moved :
    (t n most : ℕ) (p : Place) (w : SharedOrderApi)
    → w.mtx ≡ some t
    → IsSerial w
    → Counts p n most
    → most ≤ 1
    → IsSerial (move_to t p (record w { in_flight = n; max_in_flight = most }))
unfolding move_to
moved t n most p w e h c m = record {
  others = λ u ne.
      let away : u ≢ t = λ q. ne (e ∙ ap some (sym q)) in
      put_there t u p w.place away ∙ h.others u ne;
  held = rw (e, put_here t p w.place) c;
  most = m;
}

-- A thread that is not outside holds the lock.
pub holds : (t : ℕ) (w : SharedOrderApi) → IsSerial w → (w.place t ≡ outside) ⊎ (w.mtx ≡ some t)
holds t w h = elim (Option-cases w.mtx) [
  | inl free ↦ inl (h.others t (λ e. absurd cc))
  | inr (u, e) ↦ elim (Bool-cases (t == u)) [
    | inl q ↦ let same : t ≡ u = ground arith in inr (e ∙ ap some (sym same))
    | inr q ↦
        let away : t ≢ u = λ s. ground arith in
        inl (h.others t (λ f. away (let same : some t ≡ some u = sym f ∙ e in cc)))
  ]
]

pub holds_inside :
    (t : ℕ) (p : Place) (w : SharedOrderApi)
    → IsSerial w
    → w.place t ≡ p
    → p ≢ outside
    → (w.mtx ≡ some t) × Counts p w.in_flight w.max_in_flight
holds_inside t p w h e ne = elim (holds t w h) [
  | inl out ↦ absurd (ne (sym e ∙ out))
  | inr m ↦
      let counts : Counts (w.place t) w.in_flight w.max_in_flight =
        subst (λ x. Held x w) m h.held in
      (m, subst (λ x. Counts x w.in_flight w.max_in_flight) e counts)
]

pub step_at-IsSerial :
    (t : ℕ) (spurious : Bool) (w : SharedOrderApi) (p : Place)
    → w.place t ≡ p
    → IsSerial w
    → IsSerial (step_at t spurious w p)
unfolding step_at move_to
step_at-IsSerial t spurious w outside e h = elim (Option-cases w.mtx) [
  | inr (u, m) ↦ let taken : is_some w.mtx ≡ true = ap is_some m in rw taken h
  | inl m ↦
      let none_in : w.in_flight ≡ 0 = subst (λ x. Held x w) m h.held in
      rw m (record {
        others = λ u ne.
            let away : u ≢ t = λ q. ne (ap some (sym q)) in
            put_there t u locked w.place away ∙ h.others u (λ f. absurd cc);
        held = rw (put_here t locked w.place) none_in;
        most = h.most;
      })
]
step_at-IsSerial t spurious w locked e h =
    let (m, c) = holds_inside t locked w h e (λ x. absurd cc) in
    moved t (w.in_flight + 1) w.max_in_flight (counted (w.in_flight + 1)) w m h
      (omega (arith, c), omega (arith, c)) h.most
step_at-IsSerial t spurious w (counted cur) e h =
    let (m, (n, one)) = holds_inside t (counted cur) w h e (λ x. absurd cc) in
    moved t w.in_flight w.max_in_flight (raising cur w.max_in_flight) w m h (n, one, refl) h.most
step_at-IsSerial t spurious w (raising cur prev) e h =
    let (m, (n, one, same)) = holds_inside t (raising cur prev) w h e (λ x. absurd cc) in
    elim (Bool-cases (ltb prev cur)) [
      | inr high ↦ rw high (moved t w.in_flight w.max_in_flight calling w m h n h.most)
      | inl low ↦ elim (Bool-cases (prev == w.max_in_flight && not spurious)) [
        | inl won ↦ rw (low, won) (moved t w.in_flight cur calling w m h n (omega (arith, one)))
        | inr lost ↦
            rw (low, lost)
              (moved t w.in_flight w.max_in_flight (raising cur w.max_in_flight) w m h
                (n, one, refl) h.most)
      ]
    ]
step_at-IsSerial t spurious w calling e h =
    let (m, n) = holds_inside t calling w h e (λ x. absurd cc) in
    moved t (w.in_flight - 1) w.max_in_flight done w m h (omega (arith, n)) h.most
step_at-IsSerial t spurious w done e h =
    let (m, n) = holds_inside t done w h e (λ x. absurd cc) in
    record {
      others = λ u ne. elim (Bool-cases (u == t)) [
        | inl q ↦
            let same : u ≡ t = ground arith in
            ap (put t outside w.place) same ∙ put_here t outside w.place
        | inr q ↦
            let away : u ≢ t = λ s. ground arith in
            put_there t u outside w.place away
            ∙ h.others u (λ f. away (let twice : some t ≡ some u = sym m ∙ f in cc))
      ];
      held = n;
      most = h.most;
    }

pub run_steps-IsSerial :
    (steps : List (ℕ × Bool)) (w : SharedOrderApi) → IsSerial w → IsSerial (run_steps steps w)
unfolding run_steps step
run_steps-IsSerial [] w h = h
run_steps-IsSerial ((t, spurious) ∷ steps) w h =
    run_steps-IsSerial steps _ (step_at-IsSerial t spurious w (w.place t) refl h)
