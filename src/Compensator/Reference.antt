-- ===== src/Compensator/Reference.antt =====
-- The Compensator against a reference that keeps the whole past: all errors and all applied outputs
-- since construction, newest first, before which the signals are 0.
use power_electronics_ai_sim.Base.{
  ℕ, suc, ◌≤◌, ◌≡◌, refl, sym, ap, Option, List, [], ◌∷◌, length, take, replicate, take-push,
  length-replicate, arith, Result, ok, err, Result-cases, Bool-cases, inl, inr, if◌then◌else◌,
}
use power_electronics_ai_sim.Number.{Number}
use power_electronics_ai_sim.Contracts.{Payload, ActionRequest}
use power_electronics_ai_sim.Compensator.{
  CompensatorError, output_not_finite, index_error, Compensator, DelayLine, Sample, Inputs, inputs,
  accumulate, difference_equation, finite_output, limited, shift, request, store, observe,
  empty_line,
}
use power_electronics_ai_sim.Compensator.Histories.{IsCompensator}

module _ (num : Number) where
  open num use {Value, is_finite, plus, minus, times, nought}

  pub record Past : Type 0 where
    pub errors : List Value
    pub outputs : List Value

  -- `+ b1*x[n-1] - a1*y[n-1] + b2*x[n-2] - ...`, added to `output` in this order
  unfoldable pub terms : Value → List Value → List Value → List Value → List Value → Value
  terms output (b ∷ bs) (x ∷ xs) (d ∷ ds) (y ∷ ys) =
      terms (minus (plus output (times b x)) (times d y)) bs xs ds ys
  terms output bs xs ds ys = output

  unfoldable pub reference_output : Compensator num → Value → Past → Value
  unfolding terms
  reference_output c error past = elim c.numerator [
    | [] ↦ nought
    | b0 ∷ bs ↦ terms (times b0 error) bs past.errors c.denominator past.outputs
  ]

  -- The newest values, as many as the order asks for.
  abbrev pub window : Compensator num → Past → DelayLine num
  window c past = record {
    x_history = take (length c.denominator) past.errors;
    y_history = take (length c.denominator) past.outputs;
  }

  abbrev pub grown : Compensator num → Inputs num → Value → Past → Past
  grown c n output past = record {
    errors = minus n.vref n.measured ∷ past.errors;
    outputs = limited num c.limits output ∷ past.outputs;
  }

  unfoldable pub reference_observe :
      (Payload Value → Option Value)
      → Compensator num
      → Sample num
      → Past
      → Result CompensatorError (ActionRequest num) × Past
  unfolding reference_output request
  reference_observe as_float c s past = elim (inputs num as_float c s) [
    | err e ↦ (err e, past)
    | ok n ↦
        let output : Value = reference_output c (minus n.vref n.measured) past in
        if is_finite output
        then (
          request num n.now (limited num c.limits output) (window c (grown c n output past)),
          grown c n output past,
        )
        else (err output_not_finite, past)
  ]

  unfoldable pub run :
      (Payload Value → Option Value)
      → Compensator num
      → List (Sample num)
      → DelayLine num
      → List (Result CompensatorError (ActionRequest num))
  run as_float c [] h = []
  run as_float c (s ∷ ss) h = let (r, h') = observe num as_float c s h in r ∷ run as_float c ss h'

  unfoldable pub reference_run :
      (Payload Value → Option Value)
      → Compensator num
      → List (Sample num)
      → Past
      → List (Result CompensatorError (ActionRequest num))
  reference_run as_float c [] past = []
  reference_run as_float c (s ∷ ss) past =
      let (r, past') = reference_observe as_float c s past in r ∷ reference_run as_float c ss past'

module _ (num : Number) where
  open num use {Value, is_finite, plus, minus, times, nought}

  accumulate-terms :
      (output : Value) (bs xs ds ys : List Value) (n : ℕ)
      → length bs ≡ n
      → length ds ≡ n
      → n ≤ length xs
      → n ≤ length ys
      → accumulate num output bs (take n xs) ds (take n ys) ≡ ok (terms num output bs xs ds ys)
  unfolding accumulate terms
  accumulate-terms output [] xs ds ys n lb ld lx ly = refl
  accumulate-terms output (b ∷ bs) xs ds ys ℕ.zero lb ld lx ly = absurd (omega arith)
  accumulate-terms output (b ∷ bs) [] ds ys (suc n) lb ld lx ly = absurd (omega arith)
  accumulate-terms output (b ∷ bs) (x ∷ xs) [] ys (suc n) lb ld lx ly = absurd (omega arith)
  accumulate-terms output (b ∷ bs) (x ∷ xs) (d ∷ ds) [] (suc n) lb ld lx ly = absurd (omega arith)
  accumulate-terms output (b ∷ bs) (x ∷ xs) (d ∷ ds) (y ∷ ys) (suc n) lb ld lx ly =
      accumulate-terms (minus (plus output (times b x)) (times d y)) bs xs ds ys n (omega arith)
        (omega arith) (omega arith) (omega arith)

  abbrev Reaches : Compensator num → Past num → Type 0
  Reaches c past =
      (length c.denominator ≤ length past.errors) × (length c.denominator ≤ length past.outputs)

  equation-reference :
      (c : Compensator num) (error : Value) (past : Past num)
      → IsCompensator c
      → Reaches c past
      → difference_equation num c error (window num c past).x_history (window num c past).y_history
        ≡ ok (reference_output num c error past)
  unfolding difference_equation reference_output
  equation-reference c error past v r = go c.numerator v.coefficients
    where
      go :
          (b : List Value)
          → length b ≡ suc (length c.denominator)
          → elim b [
            | [] ↦ err index_error
            | b0 ∷ bs ↦
                accumulate num
                  (num.times b0 error)
                  bs
                  (window num c past).x_history
                  c.denominator
                  (window num c past).y_history
          ]
            ≡ ok (elim b [
              | [] ↦ nought
              | b0 ∷ bs ↦ terms num (num.times b0 error) bs past.errors c.denominator past.outputs
            ])
      go [] l = absurd (omega arith)
      go (b0 ∷ bs) l =
          accumulate-terms (num.times b0 error) bs past.errors c.denominator past.outputs
            (length c.denominator) (omega arith) refl r.0 r.1

  finite_output-reference :
      (c : Compensator num) (error : Value) (past : Past num)
      → IsCompensator c
      → Reaches c past
      → finite_output num c error (window num c past).x_history (window num c past).y_history ≡ (
          if is_finite (reference_output num c error past)
          then ok (reference_output num c error past)
          else err output_not_finite)
  unfolding finite_output
  finite_output-reference c error past v r = rw (equation-reference c error past v r) (ground arith)

  window-grown :
      (c : Compensator num) (n : Inputs num) (output : Value) (past : Past num)
      → IsCompensator c
      → Reaches c past
      → shift num (minus n.vref n.measured) (limited num c.limits output) (window num c past)
        ≡ window num c (grown num c n output past)
  window-grown c n output past v r = λ i. record {
    x_history =
        sym (take-push (length c.denominator) (minus n.vref n.measured) past.errors v.order r.0) i;
    y_history =
        sym
          (take-push (length c.denominator) (limited num c.limits output) past.outputs v.order r.1)
          i;
  }

  -- One call: the answers agree, and the delay line is the window on the past that the reference keeps.
  observe-reference :
      (as_float : Payload Value → Option Value) (c : Compensator num) (s : Sample num)
      (past : Past num)
      → IsCompensator c
      → Reaches c past
      → let (r, past') = reference_observe num as_float c s past in
        (observe num as_float c s (window num c past) ≡ (r, window num c past')) × Reaches c past'
  unfolding observe reference_observe
  observe-reference as_float c s past v r = elim (Result-cases (inputs num as_float c s)) [
    | inl (e, he) ↦ rw (observe, reference_observe, he) (refl, r)
    | inr (n, hn) ↦
        let output = reference_output num c (minus n.vref n.measured) past in
        let same = finite_output-reference c (minus n.vref n.measured) past v r in
        elim (Bool-cases (is_finite output)) [
          | inl fine ↦
              let applied = limited num c.limits output in
              rw (observe, reference_observe, hn, same, fine, store)
                (
                  ap (λ h. (request num n.now applied h, h)) (window-grown c n output past v r),
                  (omega arith, omega arith),
                )
          | inr bad ↦ rw (observe, reference_observe, hn, same, bad) (refl, r)
        ]
  ]

  run-windows :
      (as_float : Payload Value → Option Value) (c : Compensator num) (ss : List (Sample num))
      (past : Past num)
      → IsCompensator c
      → Reaches c past
      → run num as_float c ss (window num c past) ≡ reference_run num as_float c ss past
  unfolding run reference_run
  run-windows as_float c [] past v r = refl
  run-windows as_float c (s ∷ ss) past v r =
      let (same, r') = observe-reference as_float c s past v r in
      let past' = (reference_observe num as_float c s past).1 in
      let answer = (reference_observe num as_float c s past).0 in
      rw same (ap (λ rest. answer ∷ rest) (run-windows as_float c ss past' v r'))

  -- The past of a compensator that has just been constructed.
  abbrev pub before_all : Compensator num → Past num
  before_all c = record {
    errors = replicate (length c.denominator) nought;
    outputs = replicate (length c.denominator) nought;
  }

  take-replicate : (n : ℕ) (v : Value) → take n (replicate n v) ≡ replicate n v
  take-replicate ℕ.zero v = refl
  take-replicate (suc n) v = ap (λ r. v ∷ r) (take-replicate n v)

  -- From construction on, a compensator answers each of any samples, raising or not, as the
  -- difference equation over the whole past does: over all errors, and all outputs as they were
  -- applied, that came before, with zeros ahead of the first.
  pub run-reference :
      (as_float : Payload Value → Option Value) (c : Compensator num) (ss : List (Sample num))
      → IsCompensator c
      → run num as_float c ss (empty_line num c.denominator)
        ≡ reference_run num as_float c ss (before_all c)
  run-reference as_float c ss v =
      let n = length c.denominator in
      let start : window num c (before_all c) ≡ empty_line num c.denominator = λ i. record {
        x_history = take-replicate n nought i;
        y_history = take-replicate n nought i;
      } in
      let long : n ≤ length (replicate n nought) = omega (arith, length-replicate n nought) in
      rw (← start) (run-windows as_float c ss (before_all c) v (long, long))
