-- ===== src/Indicators/History.antt =====
-- The windows of the indicators against the list of what they were fed.
use coin_bot.Base.{
  ℕ, suc, ◌-◌, ◌<◌, ◌≤◌, none, some, List, [], ◌∷◌, ◌++◌, ◌≡◌, ◌≢◌, ap, ◌∙◌, subst, arith, length,
  drop, last, length-drop, drop-append, drop_first, leb, length-append,
}
use native.Mathlib.Decide.{dec_lt}
use coin_bot.RingBuffer.{RingBuffer, full, push}
use coin_bot.RingBuffer.Refine.{Represents, push_queue, push_queue_room, push_refines}
use coin_bot.Indicators.{Value}

-- Updates with each of a list of closes, the first first.
abbrev pub feed : {D S : Type 0} → (D → S → Value D × S) → S → List D → S
feed update s [] = s
feed update s (x ∷ xs) = feed update (update x s).1 xs

module _ {A : Type 0} where
  push_queue_full :
      (cap : ℕ) (y : A) (q : List A) (v : A)
      → length (y ∷ q) ≡ cap
      → push_queue cap (y ∷ q) v ≡ (some y, q ++ (v ∷ []))
  push_queue_full cap y q v h = ground arith

  last_whole : (n : ℕ) (xs : List A) → length xs ≤ n → last n xs ≡ xs
  last_whole n xs h = ap (λ k. drop k xs) (the_zero n (length xs) h)
    where
      the_zero : (n l : ℕ) → l ≤ n → l - n ≡ 0
      the_zero n l h = omega arith

  last-append :
      (cap : ℕ) (xs : List A) (v : A)
      → cap ≤ length xs
      → cap ≢ 0
      → last cap (xs ++ (v ∷ [])) ≡ drop (suc (length xs - cap)) xs ++ (v ∷ [])
  last-append cap xs v h pos =
      ap (λ k. drop k (xs ++ (v ∷ []))) {y = suc (length xs - cap)}
        (omega (arith, length-append xs (v ∷ [])))
      ∙ drop-append (suc (length xs - cap)) xs (v ∷ []) (omega arith)

  -- A queue that holds the last values goes on doing so, and drops the one that is too old.
  pub push_room :
      (cap : ℕ) (xs : List A) (v : A)
      → length xs < cap
      → (last cap xs ≡ xs)
        × (push_queue cap (last cap xs) v ≡ (none, last cap (xs ++ (v ∷ []))))
        × (last cap (xs ++ (v ∷ [])) ≡ xs ++ (v ∷ []))
  push_room cap xs v h =
      let whole = last_whole cap xs (omega arith) in
      let whole' = last_whole cap (xs ++ (v ∷ [])) (omega (arith, length-append xs (v ∷ []))) in
      (whole, rw (whole, whole') (push_queue_room cap xs v h), whole')

  pub push_full :
      (cap : ℕ) (xs : List A) (v : A)
      → cap ≤ length xs
      → cap ≢ 0
      → (y : A) × (q : List A) × (last cap xs ≡ y ∷ q)
        × (push_queue cap (last cap xs) v ≡ (some y, last cap (xs ++ (v ∷ []))))
        × (last cap (xs ++ (v ∷ [])) ≡ q ++ (v ∷ []))
  push_full cap xs v h pos =
      let (y, first) = drop_first (length xs - cap) xs (omega arith) in
      let q = drop (suc (length xs - cap)) xs in
      let tail = last-append cap xs v h pos in
      (
        y,
        q,
        first,
        rw (first, tail)
            (push_queue_full cap y q v (omega (arith, length-drop (suc (length xs - cap)) xs))),
        tail,
      )

  pub push_queue-last :
      (cap : ℕ) (xs : List A) (v : A)
      → cap ≢ 0
      → (push_queue cap (last cap xs) v).1 ≡ last cap (xs ++ (v ∷ []))
  push_queue-last cap xs v pos = elim (dec_lt (length xs) cap) [
    | yes room ↦ let (_, e, _) = push_room cap xs v room in ap (λ p. p.1) e
    | no fills ↦ let (_, _, _, e, _) = push_full cap xs v (omega arith) pos in ap (λ p. p.1) e
  ]

  pub cap-push : (r : RingBuffer A) (v : A) → (push r v).1.cap ≡ r.cap
  unfolding push
  cap-push r v = ground arith

  -- What a window of `cap` places holds after the closes `xs`.
  pub record Holds (cap : ℕ) (r : RingBuffer A) (xs : List A) : Type 0 where
    pub capacity : r.cap ≡ cap
    pub holds : Represents r (last cap xs)

  pub push-Holds :
      (cap : ℕ) (r : RingBuffer A) (xs : List A) (v : A)
      → cap ≢ 0
      → Holds cap r xs
      → Holds cap (push r v).1 (xs ++ (v ∷ []))
  push-Holds cap r xs v pos h = record {
    capacity = cap-push r v ∙ h.capacity;
    holds =
        subst (Represents (push r v).1)
          (ap (λ c. (push_queue c (last cap xs) v).1) h.capacity ∙ push_queue-last cap xs v pos)
          (push_refines r (last cap xs) v h.holds).1;
  }

  -- The value that a push overwrites is the one that the queue drops.
  pub push-dropped :
      (cap : ℕ) (r : RingBuffer A) (xs : List A) (v : A)
      → Holds cap r xs
      → (push r v).0 ≡ (push_queue cap (last cap xs) v).0
  push-dropped cap r xs v h =
      (push_refines r (last cap xs) v h.holds).0
      ∙ ap (λ c. (push_queue c (last cap xs) v).0) h.capacity

  pub full_iff :
      (cap : ℕ) (r : RingBuffer A) (xs : List A)
      → cap ≢ 0
      → Holds cap r xs
      → full r ≡ leb cap (length xs)
  unfolding full
  full_iff cap r xs pos h =
      ground (arith, h.holds.counted, h.capacity, length-drop (length xs - cap) xs)
