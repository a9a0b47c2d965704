-- ===== src/Number.antt =====
-- The floating-point numbers of the program. Python's `float` is not under src/, so it is a
-- parameter: a type with the operations that the code uses. The code asks `math.isfinite` before it
-- computes, and IEEE 754 orders the finite values totally; that order is all that `Laws` assumes.
-- It says nothing of rounding, so no theorem rests on exact arithmetic.
pub mod Order
pub mod Comparisons
pub mod Scaled
use power_electronics_ai_sim.Base.{◌≡◌, Bool, true, false, not, if◌then◌else◌}

pub record Number : Type 1 where
  pub Value : Type 0
  pub is_finite : Value → Bool
  -- `a <= b` and `a < b`, false where an operand is NaN
  pub le : Value → Value → Bool
  pub lt : Value → Value → Bool
  pub plus : Value → Value → Value
  pub minus : Value → Value → Value
  pub times : Value → Value → Value
  pub nought : Value  -- 0.0
  pub one : Value  -- 1.0

pub record Laws (num : Number) : Type 0 where
  pub nought_finite : num.is_finite num.nought ≡ true
  pub one_finite : num.is_finite num.one ≡ true
  pub le_total :
      (a b : num.Value)
      → num.is_finite a ≡ true
      → num.is_finite b ≡ true
      → num.le a b ≡ false
      → num.le b a ≡ true
  pub le_trans : (a b c : num.Value) → num.le a b ≡ true → num.le b c ≡ true → num.le a c ≡ true
  pub lt_not_le :
      (a b : num.Value)
      → num.is_finite a ≡ true
      → num.is_finite b ≡ true
      → num.lt a b ≡ not (num.le b a)

module _ (num : Number) where
  -- Python's `max(a, b)` and `min(a, b)` keep the first argument of equals.
  abbrev pub max_of : num.Value → num.Value → num.Value
  max_of a b = if num.lt a b then b else a

  abbrev pub min_of : num.Value → num.Value → num.Value
  min_of a b = if num.lt b a then b else a

  -- `min(max(x, low), high)`
  unfoldable pub clamp : num.Value → num.Value → num.Value → num.Value
  clamp low high x = min_of (max_of x low) high

  -- `low <= x <= high`
  abbrev pub InRange : num.Value → num.Value → num.Value → Type 0
  InRange low high x = (num.le low x ≡ true) × (num.le x high ≡ true)
