-- ===== src/Number/Scaled.antt =====
-- Integers as an instance of `Number`: the finite values are scaled integers (every value counts a
-- fixed unit, such as a microsecond or a millivolt), and there are no others. The examples use it.
use power_electronics_ai_sim.Base.{
  ℕ, suc, ◌+◌, ◌-◌, ◌*◌, ◌≡◌, refl, Bool, true, false, not, arith, ltb, leb, if◌then◌else◌,
}
use power_electronics_ai_sim.Number.{Number, Laws}

-- `negsuc n` is -(n + 1).
pub data ℤ : Type 0 where
  pos : ℕ → ℤ
  negsuc : ℕ → ℤ

abbrev pub pos_part : ℤ → ℕ
pos_part (pos n) = n
pos_part (negsuc n) = 0

abbrev pub neg_part : ℤ → ℕ
neg_part (pos n) = 0
neg_part (negsuc n) = suc n

abbrev sub_ℕ : ℕ → ℕ → ℤ
sub_ℕ a b = if leb b a then pos (a - b) else negsuc (b - a - 1)

abbrev le_ℤ : ℤ → ℤ → Bool
le_ℤ a b = leb (pos_part a + neg_part b) (pos_part b + neg_part a)

abbrev lt_ℤ : ℤ → ℤ → Bool
lt_ℤ a b = ltb (pos_part a + neg_part b) (pos_part b + neg_part a)

abbrev pub scaled : Number
scaled = record {
  Value = ℤ;
  is_finite = λ _. true;
  le = le_ℤ;
  lt = lt_ℤ;
  plus = λ a b. sub_ℕ (pos_part a + pos_part b) (neg_part a + neg_part b);
  minus = λ a b. sub_ℕ (pos_part a + neg_part b) (neg_part a + pos_part b);
  times = λ a b.
      sub_ℕ (pos_part a * pos_part b + neg_part a * neg_part b)
        (pos_part a * neg_part b + neg_part a * pos_part b);
  nought = pos 0;
  one = pos 1;
}

le_ℤ_total : (a b : ℤ) → le_ℤ a b ≡ false → le_ℤ b a ≡ true
le_ℤ_total a b h = ground arith

le_ℤ_trans : (a b c : ℤ) → le_ℤ a b ≡ true → le_ℤ b c ≡ true → le_ℤ a c ≡ true
le_ℤ_trans a b c h k = ground arith

lt_ℤ-not_le : (a b : ℤ) → lt_ℤ a b ≡ not (le_ℤ b a)
lt_ℤ-not_le a b = ground arith

pub scaled-Laws : Laws scaled
scaled-Laws = record {
  nought_finite = refl;
  one_finite = refl;
  le_total = λ a b fa fb h. le_ℤ_total a b h;
  le_trans = le_ℤ_trans;
  lt_not_le = λ a b fa fb. lt_ℤ-not_le a b;
}
