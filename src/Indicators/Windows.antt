-- ===== src/Indicators/Windows.antt =====
-- What `Sma` and `ClosePriceWindow` give, in terms of all the closes that they were fed.
use coin_bot.Base.{
  ℕ, zero, suc, ◌+◌, ◌-◌, ◌<◌, ◌≤◌, true, false, none, List, [], ◌∷◌, ◌++◌, ◌≡◌, ◌≢◌, refl, sym, ap,
  ◌∙◌, subst, arith, length, get_elem?, drop, last, length-drop, get_elem?-drop, append_assoc,
  append-nil, leb, ◌==◌, if◌then◌else◌, length-append, Bool-cases, inl, inr,
}
use native.Mathlib.Decide.{dec_lt}
use coin_bot.Double.{Double, ◌⊕◌, ◌⊖◌, ◌⊘◌, lit}
use coin_bot.Double.Exact.{IsExact, exact}
use coin_bot.RingBuffer
use coin_bot.RingBuffer.{RingBuffer, full, push, value_from_back}
use coin_bot.RingBuffer.Refine.{Represents, reset-Represents, reads_refine}
use coin_bot.Indicators.{not_ready}
use coin_bot.Indicators.Sma
use coin_bot.Indicators.Sma.{Sma}
use coin_bot.Indicators.ClosePriceWindow
use coin_bot.Indicators.ClosePriceWindow.{ClosePriceWindow}
use coin_bot.Indicators.History.{
  feed, Holds, push-Holds, full_iff, push_room, push_full, push-dropped,
}

module _ {D : Type 0} ⦃d : Double D⦄ where
  drop-nil : (n : ℕ) → drop {A = D} n [] ≡ []
  drop-nil zero = refl
  drop-nil (suc n) = refl

  reset-Holds : (cap : ℕ) → Holds cap (RingBuffer.reset (lit {D = D} 0) cap) []
  unfolding RingBuffer.reset
  reset-Holds cap = record {
    capacity = refl;
    holds =
        subst (Represents (RingBuffer.reset (lit 0) cap)) (sym (drop-nil (0 - cap)))
          (reset-Represents (lit 0) cap);
  }

  -- `close[N]`
  pub record TracksClose (n : ℕ) (w : ClosePriceWindow D) (xs : List D) : Type 0 where
    pub delay : w.length ≡ n
    pub window : Holds (n + 1) w.window xs

  update-TracksClose :
      (n : ℕ) (w : ClosePriceWindow D) (xs : List D) (c : D)
      → TracksClose n w xs
      → TracksClose n (ClosePriceWindow.update c w).1 (xs ++ (c ∷ []))
  unfolding ClosePriceWindow.update
  update-TracksClose n w xs c h = record {
    delay = h.delay;
    window = push-Holds (n + 1) w.window xs c (omega arith) h.window;
  }

  feed-TracksClose :
      (n : ℕ) (w : ClosePriceWindow D) (xs ys : List D)
      → TracksClose n w xs
      → TracksClose n (feed ClosePriceWindow.update w ys) (xs ++ ys)
  feed-TracksClose n w xs [] h = subst (TracksClose n w) (sym (append-nil xs)) h
  feed-TracksClose n w xs (y ∷ ys) h =
      subst (TracksClose n (feed ClosePriceWindow.update w (y ∷ ys))) (append_assoc xs (y ∷ []) ys)
        (feed-TracksClose n (ClosePriceWindow.update y w).1 (xs ++ (y ∷ [])) ys
          (update-TracksClose n w xs y h))

  -- The value that is `n` before the newest.
  back :
      (n : ℕ) (r : RingBuffer D) (xs : List D)
      → Holds (n + 1) r xs
      → n < length xs
      → value_from_back r n ≡ get_elem? xs (length xs - 1 - n)
  back n r xs h enough =
      let k = length xs - (n + 1) in
      let len = length-drop k xs in
      (reads_refine r (last (n + 1) xs) n h.holds).0
      ∙ ap (λ b. if b then none else get_elem? (last (n + 1) xs) (length (last (n + 1) xs) - 1 - n))
          {y = false} (ground (arith, len))
      ∙ get_elem?-drop k (length (last (n + 1) xs) - 1 - n) xs
      ∙ ap (get_elem? xs) {y = length xs - 1 - n} (omega (arith, len))

  back_short :
      (n : ℕ) (r : RingBuffer D) (xs : List D)
      → Holds (n + 1) r xs
      → length xs ≤ n
      → value_from_back r n ≡ none
  back_short n r xs h short =
      (reads_refine r (last (n + 1) xs) n h.holds).0
      ∙ ground (arith, length-drop (length xs - (n + 1)) xs)

  close_n_of :
      (n : ℕ) (w : ClosePriceWindow D) (xs : List D)
      → TracksClose n w xs
      → ClosePriceWindow.close_n w ≡ (
          if leb (length xs) n
          then not_ready
          else ClosePriceWindow.of_optional (get_elem? xs (length xs - 1 - n)))
  unfolding ClosePriceWindow.close_n ClosePriceWindow.of_optional
  close_n_of n w xs h = elim (dec_lt n (length xs)) [
    | yes enough ↦ rw (h.delay, back n w.window xs h.window enough) (ground arith)
    | no short ↦ rw (h.delay, back_short n w.window xs h.window (omega arith)) (ground arith)
  ]

  reset-TracksClose : (n : ℕ) → TracksClose n (ClosePriceWindow.reset n) []
  unfolding ClosePriceWindow.reset
  reset-TracksClose n = record { delay = refl; window = reset-Holds (n + 1) }

  -- From its reset on, the window gives the close that was fed `n` updates before the newest, and is
  -- not ready until there is one.
  pub closes_ago :
      (n : ℕ) (xs : List D) (c : D)
      → let (out, w) =
          ClosePriceWindow.update c (feed ClosePriceWindow.update (ClosePriceWindow.reset n) xs) in
        (ClosePriceWindow.close_n w ≡ out)
        × (out ≡ (
            if leb (length xs + 1) n
            then not_ready
            else ClosePriceWindow.of_optional (get_elem? (xs ++ (c ∷ [])) (length xs - n))))
  unfolding ClosePriceWindow.update ClosePriceWindow.close_n
  closes_ago n xs c =
      let w = feed ClosePriceWindow.update (ClosePriceWindow.reset n) xs in
      let tracks =
        update-TracksClose n w xs c
          (feed-TracksClose n (ClosePriceWindow.reset n) [] xs (reset-TracksClose n)) in
      let len = length-append xs (c ∷ []) in
      (
        refl,
        close_n_of n (ClosePriceWindow.update c w).1 (xs ++ (c ∷ [])) tracks
            ∙ ap
                (λ l.
                  if leb l n
                  then not_ready
                  else ClosePriceWindow.of_optional (get_elem? (xs ++ (c ∷ [])) (l - 1 - n)))
                len
            ∙ ap
                (λ i.
                  if leb (length xs + 1) n
                  then not_ready
                  else ClosePriceWindow.of_optional (get_elem? (xs ++ (c ∷ [])) i))
                {y = length xs - n} (omega arith),
      )

abbrev pub total : {D : Type 0} ⦃d : Double D⦄ → List D → D
total [] = lit 0
total (x ∷ xs) = x ⊕ total xs

module _ {D : Type 0} ⦃d : Double D⦄ ⦃exact_D : IsExact D⦄ where
  total-append : (xs : List D) (v : D) → total (xs ++ (v ∷ [])) ≡ total xs ⊕ v
  total-append [] v = omega exact
  total-append (x ∷ xs) v = ap (λ t. x ⊕ t) (total-append xs v) ∙ omega exact

  move_on : (y t v : D) → ((y ⊕ t) ⊖ y) ⊕ v ≡ t ⊕ v
  move_on y t v = omega exact

  is_active : (n : ℕ) (s : Sma D) → n ≢ 0 → s.length ≡ n → (s.length == 0) ≡ false
  is_active n s pos e = ground arith

  pub record TracksSum (n : ℕ) (s : Sma D) (xs : List D) : Type 0 where
    pub width : s.length ≡ n
    pub window : Holds n s.window xs
    pub summed : s.sum ≡ total (last n xs)

  summed_less :
      (n : ℕ) (r : RingBuffer D) (xs : List D) (sum v : D)
      → n ≢ 0
      → Holds n r xs
      → sum ≡ total (last n xs)
      → Sma.less sum (push r v).0 ⊕ v ≡ total (last n (xs ++ (v ∷ [])))
  summed_less n r xs sum v pos h e = elim (dec_lt (length xs) n) [
    | yes room ↦
        let (before, pushed, after) = push_room n xs v room in
        rw (push-dropped n r xs v h ∙ ap (λ p. p.0) pushed)
          (ap (λ t. t ⊕ v) (e ∙ ap total before) ∙ sym (total-append xs v) ∙ sym (ap total after))
    | no fills ↦
        let (y, q, before, pushed, after) = push_full n xs v (omega arith) pos in
        rw (push-dropped n r xs v h ∙ ap (λ p. p.0) pushed) (
          ap (λ t. (t ⊖ y) ⊕ v) (e ∙ ap total before)
          ∙ move_on y (total q) v
          ∙ sym (total-append q v)
          ∙ sym (ap total after))
  ]

  update-TracksSum :
      (n : ℕ) (s : Sma D) (xs : List D) (x : D)
      → n ≢ 0
      → TracksSum n s xs
      → TracksSum n (Sma.update x s).1 (xs ++ (x ∷ []))
  unfolding Sma.update
  update-TracksSum n s xs x pos h = rw (is_active n s pos h.width) (record {
    width = h.width;
    window = push-Holds n s.window xs x pos h.window;
    summed = summed_less n s.window xs s.sum x pos h.window h.summed;
  })

  value-update :
      (n : ℕ) (s : Sma D) (x : D)
      → n ≢ 0
      → s.length ≡ n
      → Sma.value (Sma.update x s).1 ≡ (Sma.update x s).0
  unfolding Sma.update Sma.value
  value-update n s x pos e =
      rw (is_active n s pos e) (elim (Bool-cases (full (push s.window x).1)) [
        | inl f ↦ rw f (ground arith)
        | inr f ↦ rw f (ground arith)
      ])

  value_of :
      (n : ℕ) (s : Sma D) (xs : List D)
      → n ≢ 0
      → TracksSum n s xs
      → Sma.value s ≡ (
          if leb n (length xs)
          then record { ready = true; v = total (last n xs) ⊘ lit n }
          else not_ready)
  unfolding Sma.value
  value_of n s xs pos h = rw (h.width, full_iff n s.window xs pos h.window, h.summed) (ground arith)

  feed-TracksSum :
      (n : ℕ) (s : Sma D) (xs ys : List D)
      → n ≢ 0
      → TracksSum n s xs
      → TracksSum n (feed Sma.update s ys) (xs ++ ys)
  feed-TracksSum n s xs [] pos h = subst (TracksSum n s) (sym (append-nil xs)) h
  feed-TracksSum n s xs (y ∷ ys) pos h =
      subst (TracksSum n (feed Sma.update s (y ∷ ys))) (append_assoc xs (y ∷ []) ys) (
        feed-TracksSum n (Sma.update y s).1 (xs ++ (y ∷ [])) ys pos
          (update-TracksSum n s xs y pos h))

  reset-TracksSum : (n : ℕ) → TracksSum n (Sma.reset n) []
  unfolding Sma.reset
  reset-TracksSum n = record {
    width = refl;
    window = reset-Holds n;
    summed = ap total (sym (drop-nil (0 - n)));
  }

  -- From its reset on, the average is that of the last `n` values, summed afresh, and is ready once
  -- there are as many.
  pub mean_of_last :
      (n : ℕ) (xs : List D) (x : D)
      → n ≢ 0
      → let (out, s) = Sma.update x (feed Sma.update (Sma.reset n) xs) in
        let all = xs ++ (x ∷ []) in
        (Sma.value s ≡ out)
        × (out ≡ (
            if leb n (length all)
            then record { ready = true; v = total (last n all) ⊘ lit n }
            else not_ready))
  mean_of_last n xs x pos =
      let s = feed Sma.update (Sma.reset n) xs in
      let tracks = feed-TracksSum n (Sma.reset n) [] xs pos (reset-TracksSum n) in
      let same = value-update n s x pos tracks.width in
      (
        same,
        sym same
            ∙ value_of n (Sma.update x s).1 (xs ++ (x ∷ [])) pos
                (update-TracksSum n s xs x pos tracks),
      )
