-- ===== src/Number/Order.antt =====
-- What the order of the finite values gives: reflexivity, and where a clamped value lies.
use power_electronics_ai_sim.Base.{◌≡◌, true, false, arith, Bool-cases, inl, inr}
use power_electronics_ai_sim.Number.{Number, Laws, clamp, InRange}

module _ (num : Number) (laws : Laws num) where
  open num use {Value, is_finite, le, lt}

  pub le_refl : (a : Value) → is_finite a ≡ true → le a a ≡ true
  le_refl a f = elim (Bool-cases (le a a)) [
    | inl yes_le ↦ yes_le
    | inr not_le ↦ laws.le_total a a f f not_le
  ]

  pub lt_irrefl : (a : Value) → is_finite a ≡ true → lt a a ≡ false
  lt_irrefl a h = ground (arith, laws.lt_not_le a a h h, le_refl a h)

  pub clamp-InRange :
      (low high x : Value)
      → is_finite low ≡ true
      → is_finite high ≡ true
      → is_finite x ≡ true
      → le low high ≡ true
      → InRange num low high (clamp num low high x)
  unfolding clamp
  clamp-InRange low high x fl fh fx ordered = ground (
    arith,
    laws.lt_not_le x low fx fl,
    laws.lt_not_le high x fh fx,
    laws.lt_not_le high low fh fl,
    laws.le_total low x fl fx,
    laws.le_total x low fx fl,
    laws.le_total x high fx fh,
    le_refl low fl,
    le_refl high fh,
  )

  -- A value that is already in the range is not changed.
  pub clamp_inside :
      (low high x : Value)
      → is_finite low ≡ true
      → is_finite high ≡ true
      → is_finite x ≡ true
      → InRange num low high x
      → clamp num low high x ≡ x
  unfolding clamp
  clamp_inside low high x fl fh fx h =
      ground (arith, laws.lt_not_le x low fx fl, laws.lt_not_le high x fh fx)

module _ (num : Number) where
  pub clamp-finite :
      (low high x : num.Value)
      → num.is_finite low ≡ true
      → num.is_finite high ≡ true
      → num.is_finite x ≡ true
      → num.is_finite (clamp num low high x) ≡ true
  unfolding clamp
  clamp-finite low high x fl fh fx = ground arith
