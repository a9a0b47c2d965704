-- ===== src/Compensator/Histories.antt =====
-- The lengths and the values of the delay line of a Compensator.
use power_electronics_ai_sim.Base.{
  ℕ, suc, ◌<◌, ◌≡◌, refl, Option, none, some, List, [], ◌∷◌, length, replicate, All,
  length-replicate, arith, ok, true,
}
use power_electronics_ai_sim.Number.{Number}
use power_electronics_ai_sim.Contracts.{Payload}
use power_electronics_ai_sim.Compensator.{
  Limits, Compensator, DelayLine, Arguments, finite_number, finite_numbers, discrete_compensator,
  paired_limits, empty_line,
}
use power_electronics_ai_sim.Compensator.Stored.{Stored, stored_values, load_values, load_history}

module _ {num : Number} where
  open num use {Value, is_finite, lt, nought}

  -- What construction promises of a compensator.
  pub record IsCompensator (c : Compensator num) : Type 0 where
    pub coefficients : length c.numerator ≡ suc (length c.denominator)
    pub order : 0 < length c.denominator
    pub numerator_finite : All (λ v. is_finite v ≡ true) c.numerator
    pub denominator_finite : All (λ v. is_finite v ≡ true) c.denominator
    pub ordered :
        (l : Limits num)
        → c.limits ≡ some l
        → (is_finite l.output_min ≡ true)
          × (is_finite l.output_max ≡ true)
          × (lt l.output_min l.output_max ≡ true)

  -- A delay line of the compensator's order, whose outputs are finite.
  pub record IsLine (c : Compensator num) (h : DelayLine num) : Type 0 where
    pub inputs_kept : length h.x_history ≡ length c.denominator
    pub outputs_kept : length h.y_history ≡ length c.denominator
    pub outputs_finite : All (λ v. is_finite v ≡ true) h.y_history

module _ (num : Number) (as_float : Payload num.Value → Option num.Value) where
  open num use {Value, is_finite, nought}

  finite_number-finite :
      (p : Payload Value) (v : Value) → finite_number num as_float p ≡ ok v → is_finite v ≡ true
  unfolding finite_number
  finite_number-finite p v h = ground arith

  pub finite_numbers-finite :
      (ps : List (Payload Value)) (vs : List Value)
      → finite_numbers num as_float ps ≡ ok vs
      → (length vs ≡ length ps) × All (λ v. is_finite v ≡ true) vs
  unfolding finite_numbers
  finite_numbers-finite [] [] h = (refl, tt)
  finite_numbers-finite [] (v ∷ vs) h = absurd (ground arith)
  finite_numbers-finite (p ∷ ps) [] h = absurd (ground arith)
  finite_numbers-finite (p ∷ ps) (v ∷ vs) h =
      let (tail_length, tail_finite) = finite_numbers-finite ps vs (ground arith) in
      (omega arith, (ground (arith, finite_number-finite p v), tail_finite))

  replicate-finite :
      (n : ℕ) → is_finite nought ≡ true → All (λ v. is_finite v ≡ true) (replicate n nought)
  replicate-finite ℕ.zero f = tt
  replicate-finite (suc n) f = (f, replicate-finite n f)

  paired_limits-ordered :
      (low high : Option (Payload Value)) (o : Option (Limits num)) (l : Limits num)
      → paired_limits num as_float low high ≡ ok o
      → o ≡ some l
      → (is_finite l.output_min ≡ true)
        × (is_finite l.output_max ≡ true)
        × (num.lt l.output_min l.output_max ≡ true)
  unfolding paired_limits
  paired_limits-ordered (some low) (some high) o l h e =
      ground (arith, finite_number-finite low l.output_min, finite_number-finite high l.output_max)
  paired_limits-ordered none high o l h e = ground arith
  paired_limits-ordered (some low) none o l h e = ground arith

  -- What construction returns.
  pub discrete_compensator-IsCompensator :
      is_finite nought ≡ true
      → (a : Arguments num) (c : Compensator num) (h : DelayLine num)
      → discrete_compensator num as_float a ≡ ok (c, h)
      → IsCompensator c × IsLine c h
  unfolding discrete_compensator
  discrete_compensator-IsCompensator zero_finite a c h e =
      let lengths : (length c.numerator ≡ suc (length c.denominator)) × (0 < length c.denominator) =
        ground arith in
      let line : h ≡ empty_line num c.denominator = ground arith in
      (
        record {
          coefficients = lengths.0;
          order = lengths.1;
          numerator_finite = (finite_numbers-finite a.numerator c.numerator (ground arith)).1;
          denominator_finite = (finite_numbers-finite a.denominator c.denominator (ground arith)).1;
          ordered = λ l has.
              paired_limits-ordered a.output_min a.output_max c.limits l (ground arith) has;
        },
        rw line (record {
          inputs_kept = length-replicate (length c.denominator) nought;
          outputs_kept = length-replicate (length c.denominator) nought;
          outputs_finite = replicate-finite (length c.denominator) zero_finite;
        }),
      )

  load_values-IsLine :
      (c : Compensator num) (xs ys : List (Payload Value)) (h h' : DelayLine num)
      → IsLine c h
      → load_values num as_float xs ys h ≡ ok h'
      → IsLine c h'
  unfolding load_values
  load_values-IsLine c xs ys h h' v e =
      let counted : (length xs ≡ length h.x_history) × (length ys ≡ length h.y_history) =
        ground arith in
      let x_found : finite_numbers num as_float xs ≡ ok h'.x_history = ground arith in
      let y_found : finite_numbers num as_float ys ≡ ok h'.y_history = ground arith in
      let (x_length, x_finite) = finite_numbers-finite xs h'.x_history x_found in
      let (y_length, y_finite) = finite_numbers-finite ys h'.y_history y_found in
      record {
        inputs_kept = omega (arith, v.inputs_kept, counted.0, x_length);
        outputs_kept = omega (arith, v.outputs_kept, counted.1, y_length);
        outputs_finite = y_finite;
      }

  -- A state that loads has the order of the line that it replaces.
  pub load_history-IsLine :
      (c : Compensator num) (state : Stored num) (h h' : DelayLine num)
      → IsLine c h
      → load_history num as_float state h ≡ ok h'
      → IsLine c h'
  load_history-IsLine c state h h' v e =
      load_values-IsLine c (stored_values num state h).0 (stored_values num state h).1 h h' v
        (unfold load_history in e)
