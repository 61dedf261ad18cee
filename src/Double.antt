-- ===== src/Double.antt =====
-- The C++ `double`: what the program computes with it, over any type that has those operations.
-- core/domain/Types.h names it Price, Volume and Amount. `a > b` is `lt b a` and `a >= b` is `le b a`,
-- which holds of IEEE numbers too, NaN included.

pub mod Exact
pub mod Int
use coin_bot.Base.{ℕ, Bool, if◌then◌else◌}

pub record Double (D : Type 0) : Type 0 where
  -- a literal without fraction, or a conversion from an unsigned number
  pub of_ℕ : ℕ → D
  pub add : D → D → D
  pub sub : D → D → D
  pub mul : D → D → D
  pub div : D → D → D
  pub neg : D → D
  pub sqrt : D → D
  pub lt : D → D → Bool
  pub le : D → D → Bool
  pub eq : D → D → Bool

module _ {D : Type 0} ⦃d : Double D⦄ where
  infixl 65 ◌⊕◌ ◌⊖◌
  infixl 70 ◌⊗◌ ◌⊘◌
  infix 50 ◌<?◌ ◌≤?◌ ◌=?◌
  abbrev pub ◌⊕◌ : D → D → D
  ◌⊕◌ = d.add

  abbrev pub ◌⊖◌ : D → D → D
  ◌⊖◌ = d.sub

  abbrev pub ◌⊗◌ : D → D → D
  ◌⊗◌ = d.mul

  abbrev pub ◌⊘◌ : D → D → D
  ◌⊘◌ = d.div

  abbrev pub ◌<?◌ : D → D → Bool
  ◌<?◌ = d.lt

  abbrev pub ◌≤?◌ : D → D → Bool
  ◌≤?◌ = d.le

  abbrev pub ◌=?◌ : D → D → Bool
  ◌=?◌ = d.eq

  -- `std::max(a, b)`, which is `(a < b) ? b : a`
  abbrev pub max : D → D → D
  max a b = if a <? b then b else a

  -- `std::abs`, but for the sign of a zero
  abbrev pub abs : D → D
  abs a = if a <? d.of_ℕ 0 then d.neg a else a

abbrev pub lit : {D : Type 0} ⦃d : Double D⦄ → ℕ → D
lit ⦃d⦄ = d.of_ℕ
