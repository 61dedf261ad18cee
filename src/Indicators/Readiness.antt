-- ===== src/Indicators/Readiness.antt =====
-- `ready` of the relative strength index.
use coin_bot.Base.{
  ℕ, zero, suc, ◌+◌, ◌-◌, ◌<◌, ◌≤◌, true, false, none, some, List, [], ◌∷◌, ◌≡◌, ◌≢◌, refl, sym, ap,
  subst, ◌∙◌, arith, length, ltb, ◌==◌,
}
use native.Mathlib.Decide.{dec_lt}
use coin_bot.Double.{Double, ◌⊖◌}
use coin_bot.Indicators.{not_ready}
use coin_bot.Indicators.Rsi.{
  RsiWilder, reset, clear, update, update_from, change, seed, smooth, publish, value,
}
use coin_bot.Indicators.History.{feed}

module _ {D : Type 0} ⦃d : Double D⦄ where
  -- The state of an index of length `l` after `n` closes.
  pub record IsFed (l n : ℕ) (r : RsiWilder D) : Type 0 where
    pub width : r.length ≡ l
    pub first : n ≡ 0 → r.prev_price ≡ none
    pub later : n ≢ 0 → (p : D) × (r.prev_price ≡ some p)
    pub seeded : n ≤ l → r.seed_count ≡ n - 1
    pub seeded_all : l < n → r.seed_count ≡ l
    pub blank : n ≤ l → r.last ≡ not_ready
    pub made : l < n → r.last.ready ≡ true

  reset-IsFed : (l : ℕ) (r : RsiWilder D) → IsFed l 0 (reset l r)
  unfolding reset clear
  reset-IsFed l r = record {
    width = refl;
    first = λ e. refl;
    later = λ h. absurd (h refl);
    seeded = λ h. omega arith;
    seeded_all = λ h. absurd (omega arith);
    blank = λ h. refl;
    made = λ h. absurd (omega arith);
  }

  change-IsFed :
      (l n : ℕ) (c p : D) (r : RsiWilder D)
      → l ≢ 0
      → n ≢ 0
      → IsFed l n r
      → r.prev_price ≡ some p
      → IsFed l (n + 1) (change (c ⊖ p) (record r { prev_price = some c })).1
  unfolding change seed smooth publish
  change-IsFed l n c p r pos more h e = record {
    width = ground (arith, h.width);
    first = λ z. absurd (omega arith);
    later = λ z. (c, ground arith);
    seeded = λ z. ground (arith, h.seeded (omega arith), h.width);
    seeded_all = λ z. elim (dec_lt l n) [
      | yes q ↦ ground (arith, h.width, h.seeded_all q)
      | no q ↦ ground (arith, h.width, h.seeded (omega arith))
    ];
    blank = λ z. ground (arith, h.width, h.seeded (omega arith), h.blank (omega arith));
    made = λ z. elim (dec_lt l n) [
      | yes q ↦ ground (arith, h.width, h.seeded_all q)
      | no q ↦ ground (arith, h.width, h.seeded (omega arith))
    ];
  }

  first-IsFed :
      (l : ℕ) (c : D) (r : RsiWilder D)
      → l ≢ 0
      → IsFed l 0 r
      → IsFed l 1 (record r { prev_price = some c })
  first-IsFed l c r pos h = record {
    width = h.width;
    first = λ e. absurd (omega arith);
    later = λ z. (c, refl);
    seeded = λ z. h.seeded (omega arith) ∙ omega arith;
    seeded_all = λ z. absurd (omega arith);
    blank = λ z. h.blank (omega arith);
    made = λ z. absurd (omega arith);
  }

  is_active : (l : ℕ) (r : RsiWilder D) → l ≢ 0 → r.length ≡ l → (r.length == 0) ≡ false
  is_active l r pos e = ground arith

  update-IsFed :
      (l n : ℕ) (c : D) (r : RsiWilder D) → l ≢ 0 → IsFed l n r → IsFed l (n + 1) (update c r).1
  unfolding update update_from
  update-IsFed l zero c r pos h =
      rw (is_active l r pos h.width, h.first refl) (first-IsFed l c r pos h)
  update-IsFed l (suc n) c r pos h =
      let (p, e) = h.later (omega arith) in
      rw (is_active l r pos h.width, e) (change-IsFed l (suc n) c p r pos (omega arith) h e)

  change-value :
      (l n : ℕ) (c p : D) (r : RsiWilder D)
      → l ≢ 0
      → n ≢ 0
      → IsFed l n r
      → (change (c ⊖ p) (record r { prev_price = some c })).0
        ≡ (change (c ⊖ p) (record r { prev_price = some c })).1.last
  unfolding change seed smooth publish
  change-value l n c p r pos more h = elim (dec_lt l n) [
    | yes q ↦ ground (arith, h.width, h.seeded_all q)
    | no q ↦ ground (arith, h.width, h.seeded (omega arith), h.blank (omega arith))
  ]

  -- Updates return what `value` then gives.
  update-value :
      (l n : ℕ) (c : D) (r : RsiWilder D)
      → l ≢ 0
      → IsFed l n r
      → (update c r).0 ≡ value (update c r).1
  unfolding update update_from value
  update-value l zero c r pos h =
      rw (is_active l r pos h.width, h.first refl) (sym (h.blank (omega arith)))
  update-value l (suc n) c r pos h =
      let (p, e) = h.later (omega arith) in
      rw (is_active l r pos h.width, e) (change-value l (suc n) c p r pos (omega arith) h)

  feed-IsFed :
      (l n : ℕ) (r : RsiWilder D) (xs : List D)
      → l ≢ 0
      → IsFed l n r
      → IsFed l (n + length xs) (feed update r xs)
  feed-IsFed l n r [] pos h = subst (λ k. IsFed l k r) (omega arith) h
  feed-IsFed l n r (x ∷ xs) pos h =
      subst (λ k. IsFed l k (feed update r (x ∷ xs))) {x = n + 1 + length xs} (omega arith)
        (feed-IsFed l (n + 1) (update x r).1 xs pos (update-IsFed l n x r pos h))

  value_ready : (l n : ℕ) (r : RsiWilder D) → IsFed l n r → (value r).ready ≡ ltb l n
  unfolding value
  value_ready l n r h = elim (dec_lt l n) [
    | yes q ↦ h.made q ∙ ground arith
    | no q ↦ ap (λ v. v.ready) (h.blank (omega arith)) ∙ ground arith
  ]

  -- From a reset to a length that is not 0 on, the index is ready with the first close that makes
  -- `length` changes, and stays so; and `value` gives what the last update gave.
  pub ready_after :
      (l : ℕ) (r : RsiWilder D) (xs : List D) (c : D)
      → l ≢ 0
      → let (out, r') = update c (feed update (reset l r) xs) in
        (out ≡ value r') × (out.ready ≡ ltb l (length xs + 1))
  ready_after l r xs c pos =
      let fed =
        subst (λ k. IsFed l k (feed update (reset l r) xs)) {x = 0 + length xs} (omega arith)
          (feed-IsFed l 0 (reset l r) xs pos (reset-IsFed l r)) in
      let same = update-value l (length xs) c (feed update (reset l r) xs) pos fed in
      (
        same,
        ap (λ v. v.ready) same
            ∙ value_ready l (length xs + 1) (update c (feed update (reset l r) xs)).1
                (update-IsFed l (length xs) c (feed update (reset l r) xs) pos fed),
      )
