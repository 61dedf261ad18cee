-- ===== src/Double/Int.antt =====
-- The integers as doubles: the values on which the development is run, and at which the laws of exact
-- arithmetic hold. Division rounds to zero, and the root is the largest integer below it.
use coin_bot.Base.{
  ℕ, zero, suc, ◌+◌, ◌-◌, ◌*◌, ◌/◌, ◌≤◌, ◌≡◌, refl, true, arith, ltb, leb, ◌==◌, if◌then◌else◌,
  Bool,
}
use coin_bot.Double.{Double, ◌⊕◌, ◌⊖◌, ◌⊗◌, ◌⊘◌, ◌<?◌, lit}
use coin_bot.Double.Exact.{IsExact, IsNonneg, ◌≼◌, credit, debit}

-- `negsuc n` is -(n + 1).
pub data ℤ : Type 0 where
  pos : ℕ → ℤ
  negsuc : ℕ → ℤ

abbrev pub pos_part : ℤ → ℕ
pos_part (pos n) = n
pos_part (negsuc n) = 0

abbrev pub neg_part : ℤ → ℕ
neg_part (pos n) = 0
neg_part (negsuc n) = suc n

-- a - b, as an integer.
abbrev pub sub_ℕ : ℕ → ℕ → ℤ
sub_ℕ a b = if leb b a then pos (a - b) else negsuc (b - a - 1)

abbrev pub add_ℤ : ℤ → ℤ → ℤ
add_ℤ a b = sub_ℕ (pos_part a + pos_part b) (neg_part a + neg_part b)

abbrev pub sub_ℤ : ℤ → ℤ → ℤ
sub_ℤ a b = sub_ℕ (pos_part a + neg_part b) (neg_part a + pos_part b)

abbrev pub mul_ℤ : ℤ → ℤ → ℤ
mul_ℤ a b =
    sub_ℕ (pos_part a * pos_part b + neg_part a * neg_part b)
      (pos_part a * neg_part b + neg_part a * pos_part b)

-- One of the parts of a number is zero, so this divides the magnitudes.
abbrev pub div_ℤ : ℤ → ℤ → ℤ
div_ℤ a b =
    sub_ℕ (pos_part a / pos_part b + neg_part a / neg_part b)
      (pos_part a / neg_part b + neg_part a / pos_part b)

-- The largest `r` up to the bound with `r * r ≤ n`.
abbrev pub root_ℕ : ℕ → ℕ → ℕ
root_ℕ zero n = 0
root_ℕ (suc r) n = let below = root_ℕ r n in if leb (suc r * suc r) n then suc r else below

abbrev pub lt_ℤ : ℤ → ℤ → Bool
lt_ℤ a b = ltb (pos_part a + neg_part b) (pos_part b + neg_part a)

abbrev pub le_ℤ : ℤ → ℤ → Bool
le_ℤ a b = leb (pos_part a + neg_part b) (pos_part b + neg_part a)

abbrev pub eq_ℤ : ℤ → ℤ → Bool
eq_ℤ a b = pos_part a + neg_part b == pos_part b + neg_part a

instance abbrev pub int_double : Double ℤ
int_double = record {
  of_ℕ = pos;
  add = add_ℤ;
  sub = sub_ℤ;
  mul = mul_ℤ;
  div = div_ℤ;
  neg = λ a. sub_ℤ (pos 0) a;
  sqrt = λ a. pos (root_ℕ (pos_part a) (pos_part a));
  lt = lt_ℤ;
  le = le_ℤ;
  eq = eq_ℤ;
}

add_ℤ_parts :
    (a b : ℤ)
    → pos_part (add_ℤ a b) + neg_part a + neg_part b
      ≡ neg_part (add_ℤ a b) + pos_part a + pos_part b
add_ℤ_parts a b = ground arith

sub_ℤ_parts :
    (a b : ℤ)
    → pos_part (sub_ℤ a b) + neg_part a + pos_part b
      ≡ neg_part (sub_ℤ a b) + pos_part a + neg_part b
sub_ℤ_parts a b = ground arith

eq_of_parts : (a b : ℤ) → pos_part a + neg_part b ≡ pos_part b + neg_part a → a ≡ b
eq_of_parts a b h = ground arith

share_ℤ :
    (a : ℤ) (n : ℕ)
    → neg_part a ≤ pos_part a
    → neg_part (div_ℤ a (pos (suc n))) ≤ pos_part (div_ℤ a (pos (suc n)))
share_ℤ (pos m) n h = ground arith
share_ℤ (negsuc m) n h = absurd (omega (arith, h))

instance pub ℤ-IsExact : IsExact ℤ
ℤ-IsExact = record {
  credit_of = pos_part;
  debit_of = neg_part;
  zero_of = refl;
  add_of = add_ℤ_parts;
  sub_of = sub_ℤ_parts;
  lt_of = λ a b. refl;
  le_of = λ a b. refl;
  eq_of = λ a b. refl;
  ext_of = eq_of_parts;
  share_of = share_ℤ;
}

-- A test that the operations compute.
computed : (lit {D = ℤ} 7 ⊖ lit 9) ⊗ lit 4 ⊕ lit 20 ⊘ lit 6 ≡ negsuc 4
computed = refl

compared : (lit {D = ℤ} 7 ⊖ lit 9 <? lit 0) ≡ true
compared = refl

pub pos_nonneg : (n : ℕ) → IsNonneg (pos n)
unfolding credit debit ℤ-IsExact
pos_nonneg n = omega arith

pub pos_ordered : (m n : ℕ) → m ≤ n → pos m ≼ pos n
unfolding credit debit ℤ-IsExact
pos_ordered m n h = omega (arith, h)
