-- ===== src/Double/Exact.antt =====
-- Arithmetic without rounding. A double that is a multiple of some unit is an integer, here the
-- difference of two naturals; while sums stay within 53 bits, IEEE addition, subtraction and order
-- are those of the integers. Amounts in whole KRW are such numbers. A share of an amount is rounded, and
-- IEEE division keeps its sign.
use coin_bot.Base.{ℕ, suc, ◌+◌, ◌≤◌, ◌<◌, ◌≡◌, true, false, arith, ltb, leb, ◌==◌}
use coin_bot.Double.{Double, ◌⊕◌, ◌⊖◌, ◌⊘◌, ◌<?◌, ◌≤?◌, ◌=?◌, lit}

pub record IsExact (D : Type 0) ⦃d : Double D⦄ : Type 0 where
  pub credit_of : D → ℕ
  pub debit_of : D → ℕ
  pub zero_of : credit_of (d.of_ℕ 0) ≡ debit_of (d.of_ℕ 0)
  pub add_of :
      (a b : D)
      → credit_of (a ⊕ b) + debit_of a + debit_of b ≡ debit_of (a ⊕ b) + credit_of a + credit_of b
  pub sub_of :
      (a b : D)
      → credit_of (a ⊖ b) + debit_of a + credit_of b ≡ debit_of (a ⊖ b) + credit_of a + debit_of b
  pub lt_of : (a b : D) → (a <? b) ≡ ltb (credit_of a + debit_of b) (credit_of b + debit_of a)
  pub le_of : (a b : D) → (a ≤? b) ≡ leb (credit_of a + debit_of b) (credit_of b + debit_of a)
  pub eq_of : (a b : D) → (a =? b) ≡ (credit_of a + debit_of b == credit_of b + debit_of a)
  pub ext_of : (a b : D) → credit_of a + debit_of b ≡ credit_of b + debit_of a → a ≡ b
  -- an amount that is not negative, divided by a whole number that is not 0
  pub share_of :
      (a : D) (n : ℕ)
      → debit_of a ≤ credit_of a
      → debit_of (a ⊘ d.of_ℕ (suc n)) ≤ credit_of (a ⊘ d.of_ℕ (suc n))

module _ {D : Type 0} ⦃d : Double D⦄ ⦃x : IsExact D⦄ where
  unfoldable pub credit : D → ℕ
  credit = x.credit_of

  unfoldable pub debit : D → ℕ
  debit = x.debit_of

  pub add_parts :
      (a b : D) → credit (a ⊕ b) + debit a + debit b ≡ debit (a ⊕ b) + credit a + credit b
  unfolding credit debit
  add_parts = x.add_of

  pub sub_parts :
      (a b : D) → credit (a ⊖ b) + debit a + credit b ≡ debit (a ⊖ b) + credit a + debit b
  unfolding credit debit
  sub_parts = x.sub_of

  pub ext : (a b : D) → credit a + debit b ≡ credit b + debit a → a ≡ b
  unfolding credit debit
  ext = x.ext_of

  pub lt_parts : (a b : D) → (a <? b) ≡ ltb (credit a + debit b) (credit b + debit a)
  unfolding credit debit
  lt_parts = x.lt_of

  pub le_parts : (a b : D) → (a ≤? b) ≡ leb (credit a + debit b) (credit b + debit a)
  unfolding credit debit
  le_parts = x.le_of

  -- `0 ≤ a`, and the order of two values.
  infix 4 ◌≼◌
  abbrev pub ◌≼◌ : D → D → Type 0
  a ≼ b = credit a + debit b ≤ credit b + debit a

pub ruleset exact = (arith, add_parts, sub_parts, ext)

module _ {D : Type 0} ⦃d : Double D⦄ ⦃x : IsExact D⦄ where
  -- What the two outcomes of a comparison say.
  pub lt→ : (a b : D) → (a <? b) ≡ true → credit a + debit b < credit b + debit a
  lt→ a b h = ground (arith, lt_parts a b)

  pub not-lt→ : (a b : D) → (a <? b) ≡ false → b ≼ a
  not-lt→ a b h = ground (arith, lt_parts a b)

  pub le→ : (a b : D) → (a ≤? b) ≡ true → a ≼ b
  le→ a b h = ground (arith, le_parts a b)

  pub not-le→ : (a b : D) → (a ≤? b) ≡ false → credit b + debit a < credit a + debit b
  not-le→ a b h = ground (arith, le_parts a b)

  pub sub-add : (a b : D) → (a ⊖ b) ⊕ b ≡ a
  sub-add a b = omega exact

module _ {D : Type 0} ⦃d : Double D⦄ ⦃x : IsExact D⦄ where
  -- For a value at hand: the literal 0 is the zero of its type.
  pub zero_parts : (a : D) → credit (lit {D = D} 0) ≡ debit (lit {D = D} 0)
  unfolding credit debit
  zero_parts a = x.zero_of

  pub sub_self_not_pos : (a : D) → (lit 0 <? (a ⊖ a)) ≡ false
  sub_self_not_pos a = ground (arith, lt_parts (lit 0) (a ⊖ a), sub_parts a a, zero_parts a)

  abbrev pub IsNonneg : D → Type 0
  IsNonneg a = debit a ≤ credit a

  pub add-sub : (a b : D) → (a ⊕ b) ⊖ b ≡ a
  add-sub a b = omega exact

  pub not-neg : (a : D) → IsNonneg a → (a <? lit 0) ≡ false
  not-neg a p = ground (arith, lt_parts a (lit 0), zero_parts a)

  pub pos→nonneg : (a : D) → (a ≤? lit 0) ≡ false → IsNonneg a
  pos→nonneg a h = ground (arith, le_parts a (lit 0), zero_parts a)

  pub sub-zero : (a : D) → a ⊖ lit 0 ≡ a
  sub-zero a = ext (a ⊖ lit 0) a (omega (arith, sub_parts a (lit 0), zero_parts a))

  pub sub_self : (a : D) → a ⊖ a ≡ lit 0
  sub_self a = ext (a ⊖ a) (lit 0) (omega (arith, sub_parts a a, zero_parts a))

  pub share_nonneg : (a : D) (n : ℕ) → IsNonneg a → IsNonneg (a ⊘ lit (suc n))
  unfolding credit debit
  share_nonneg a n h = x.share_of a n h

  pub zero_nonneg : (a : D) → IsNonneg (lit {D = D} 0)
  zero_nonneg a = omega (arith, zero_parts a)
