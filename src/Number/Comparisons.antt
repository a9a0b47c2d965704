-- ===== src/Number/Comparisons.antt =====
-- Comparisons of any floating-point values, infinities and NaN included: what IEEE 754 gives `<` and
-- `<=`, where a comparison with NaN is false.
use power_electronics_ai_sim.Base.{◌≡◌, true, false, arith}
use power_electronics_ai_sim.Number.{Number}
use power_electronics_ai_sim.Number.Scaled.{scaled}

pub record Comparisons (num : Number) : Type 0 where
  pub lt_irrefl_any : (a : num.Value) → num.lt a a ≡ false
  pub le_of_lt : (a b : num.Value) → num.lt a b ≡ true → num.le a b ≡ true
  -- What is above something is not NaN.
  pub le_self_of_lt : (a b : num.Value) → num.lt a b ≡ true → num.le b b ≡ true
  pub lt_of_lt_of_le :
      (a b c : num.Value) → num.lt a b ≡ true → num.le b c ≡ true → num.lt a c ≡ true
  pub lt_of_le_of_lt :
      (a b c : num.Value) → num.le a b ≡ true → num.lt b c ≡ true → num.lt a c ≡ true
  -- Of two values that are not NaN, one is at most the other.
  pub le_of_not_lt :
      (a b : num.Value)
      → num.le a a ≡ true
      → num.le b b ≡ true
      → num.lt a b ≡ false
      → num.le b a ≡ true
  -- What can be compared is not NaN.
  pub le_self_left : (a b : num.Value) → num.le a b ≡ true → num.le a a ≡ true
  pub le_self_right : (a b : num.Value) → num.le a b ≡ true → num.le b b ≡ true

pub scaled-Comparisons : Comparisons scaled
scaled-Comparisons = record {
  lt_irrefl_any = λ a. ground arith;
  le_of_lt = λ a b h. ground arith;
  le_self_of_lt = λ a b h. ground arith;
  lt_of_lt_of_le = λ a b c h k. ground arith;
  lt_of_le_of_lt = λ a b c h k. ground arith;
  le_of_not_lt = λ a b h k n. ground arith;
  le_self_left = λ a b h. ground arith;
  le_self_right = λ a b h. ground arith;
}
